-- ===== src/Tests/Tools.antt =====
-- Runs of the tools: `ipset` and `str2hex`.
use powerpc_i2c_temp.Prelude.{◌≡◌, arith, some, [], ◌∷◌}
use powerpc_i2c_temp.Prelude.Word.{u32}
use powerpc_i2c_temp.Bmc.{ip_auto_set, eth1, default_mask, default_gateway}
use powerpc_i2c_temp.Bmc.Ipset.{ipset, ipset-ip_auto_set}
use powerpc_i2c_temp.Str2hex.{
  str2hex, IsHexText, empty_text, next_digit, decimal_digit, lower_digit, upper_digit,
  str2hex-IsHexText,
}
use powerpc_i2c_temp.Tests.Bench.{no_route}

ipset-ip_auto_set_example :
    ipset no_route (some eth1) (some default_gateway) default_mask (some default_gateway) 0
    ≡ ip_auto_set no_route (some eth1) (some default_gateway) default_mask (some default_gateway) 0
ipset-ip_auto_set_example =
    ipset-ip_auto_set no_route (some eth1) (some default_gateway) (some default_gateway)
      default_mask 0

one_f_a : IsHexText (b'1' ∷ b'f' ∷ b'A' ∷ []) 0x1fa
one_f_a = next_digit b'1' 1 (b'f' ∷ b'A' ∷ []) 0xfa (decimal_digit 1 (omega arith)) (
    next_digit b'f' 15 (b'A' ∷ []) 0xa (lower_digit 5 (omega arith))
      (next_digit b'A' 10 [] 0 (upper_digit 0 (omega arith)) empty_text))

str2hex-IsHexText_example :
    (str2hex (b'1' ∷ b'f' ∷ b'A' ∷ []) ≡ u32 0x1fa)
    × (str2hex (b'0' ∷ b'x' ∷ b'1' ∷ b'f' ∷ b'A' ∷ []) ≡ u32 0x1fa)
str2hex-IsHexText_example = str2hex-IsHexText 0x1fa (b'1' ∷ b'f' ∷ b'A' ∷ []) one_f_a
