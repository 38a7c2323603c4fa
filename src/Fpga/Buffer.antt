-- ===== src/Fpga/Buffer.antt =====
-- The buffer of 20 bytes behind `read` and `write`.
use mathlib.Core.List.{append-nil}
use powerpc_i2c_temp.Prelude.{
  ℕ, zero, suc, ◌+◌, ◌-◌, ◌≤◌, ◌≡◌, refl, ap, ◌∙◌, arith, Option, none, some, List, [], ◌∷◌, ◌++◌,
  length,
}
use powerpc_i2c_temp.Prelude.Int.{pos}
use powerpc_i2c_temp.Fpga.Defs.{
  Fpga, copied, zeros, global_var_size, fpga_info_read, fpga_info_write,
}

copied_all : (n : ℕ) (bytes : List ℕ) → length bytes ≡ n → copied n bytes ≡ bytes
unfolding copied
copied_all zero [] h = refl
copied_all zero (b ∷ bytes) h = absurd (omega arith)
copied_all (suc n) [] h = absurd (omega arith)
copied_all (suc n) (b ∷ bytes) h = ap (λ t. b ∷ t) (copied_all n bytes (omega arith))

length-copied : (n : ℕ) (bytes : List ℕ) → length (copied n bytes) ≡ n
unfolding copied
length-copied zero bytes = refl
length-copied (suc n) [] = ap suc (length-copied n [])
length-copied (suc n) (b ∷ bytes) = ap suc (length-copied n bytes)

length-append-zeros : (bytes : List ℕ) (n : ℕ) → length (bytes ++ zeros n) ≡ length bytes + n
unfolding zeros
length-append-zeros [] zero = refl
length-append-zeros [] (suc n) = omega (arith, length-append-zeros [] n)
length-append-zeros (b ∷ bytes) n = omega (arith, length-append-zeros bytes n)

-- What a complete `write` of 20 bytes brought, the next complete `read` gives back, in both cases with 20
-- for the size, whatever count the caller asked for.
pub info_read-info_write :
    (bytes old : List ℕ) (s : Fpga)
    → length bytes ≡ global_var_size
    → let (n, s') = fpga_info_write (some bytes) 0 s in
      (n ≡ pos 20) × (fpga_info_read (some old) 0 s' ≡ (pos 20, some bytes))
unfolding fpga_info_write fpga_info_read zeros
info_read-info_write bytes old s h =
    (refl, ap (λ b. (pos 20, some b)) (append-nil (copied 20 bytes) ∙ copied_all 20 bytes h))

-- After any `write` to a buffer of 20 bytes, complete or not or through a null pointer, the buffer still has 20
-- bytes.
pub info_write-size :
    (buf : Option (List ℕ)) (uncopied : ℕ) (s : Fpga)
    → uncopied ≤ global_var_size
    → length s.global_var ≡ global_var_size
    → length (fpga_info_write buf uncopied s).1.global_var ≡ global_var_size
unfolding fpga_info_write
info_write-size none uncopied s h e = e
info_write-size (some bytes) uncopied s h e = omega (
  arith,
  length-append-zeros (copied (global_var_size - uncopied) bytes) uncopied,
  length-copied (global_var_size - uncopied) bytes,
)
