-- ===== src/Bmc/Net.antt =====
-- `ipAutoSet` of app/bmc/ibmc.c, which configures an interface by four requests, and `bmcAutoConfigEth`,
-- which calls it for the slot. The socket layer is a parameter. A text is its bytes before the final 0.
use powerpc_i2c_temp.Prelude.{
  ℕ, zero, suc, bit_or, ◌==◌, if◌then◌else◌, Option, none, some, List, [], ◌∷◌, set, Bool, false,
}
use powerpc_i2c_temp.Prelude.Int.{ℤ, pos, negsuc, ltb_ℤ}
use powerpc_i2c_temp.Fpga.{Fpga}
use powerpc_i2c_temp.Bmc.Registers.{Process}
use powerpc_i2c_temp.Bmc.Slot.{vpx3_ssd1_get_slot_info, slot_ip, default_ip}

-- The part of `struct ifreq` behind the name, as a `sockaddr_in`: its first halfword is the address
-- family, or read as `ifr_flags` the flags.
pub record SockAddr : Type 0 where
  pub family : ℕ
  pub addr : ℕ

pub record Ifreq : Type 0 where
  pub ifr_name : List ℕ
  pub ifr_addr : SockAddr

pub record Rtentry : Type 0 where
  pub rt_dst : SockAddr
  pub rt_gateway : SockAddr
  pub rt_genmask : SockAddr
  pub rt_dev : List ℕ
  pub rt_flags : ℕ

pub data Request : Type 0 where
  siocsifaddr siocsifnetmask siocsifflags : Ifreq → Request
  siocaddrt : Rtentry → Request

pub record Sockets (S : Type 0) : Type 0 where
  pub socket : S → ℤ × S
  pub inet_addr : List ℕ → ℕ
  pub ioctl : Request → S → ℤ × S

abbrev pub af_inet : ℕ
af_inet = 2

abbrev pub ifnamsiz : ℕ
ifnamsiz = 16

-- `RTF_UP | RTF_GATEWAY` and `IFF_UP | IFF_RUNNING`
abbrev pub route_flags : ℕ
route_flags = bit_or 0x0001 0x0002

abbrev pub up_flags : ℕ
up_flags = bit_or 0x1 0x40

unfoldable pub strncpy : ℕ → List ℕ → List ℕ
strncpy zero s = []
strncpy (suc n) [] = 0 ∷ strncpy n []
strncpy (suc n) (c ∷ s) = c ∷ strncpy n s

-- The request of an interface, whose name is cut to 15 bytes.
abbrev pub named : List ℕ → SockAddr → Ifreq
named ifname a = record { ifr_name = set (strncpy ifnamsiz ifname) 15 0; ifr_addr = a }

-- `ifr->ifr_flags |= …` on the request that holds the network mask.
abbrev pub flags_up : Ifreq → Ifreq
flags_up r = record r {
  ifr_addr = record { family = bit_or r.ifr_addr.family up_flags; addr = r.ifr_addr.addr };
}

abbrev pub is_minus_one : ℤ → Bool
is_minus_one (pos _) = false
is_minus_one (negsuc n) = n == 0

-- The text up to its 0.
unfoldable pub c_text : List ℕ → List ℕ
c_text [] = []
c_text (c ∷ s) = if c == 0 then [] else c ∷ c_text s

abbrev pub eth1 : List ℕ
eth1 = b'e' ∷ b't' ∷ b'h' ∷ b'1' ∷ []

abbrev pub default_mask : List ℕ
default_mask =
    b'2' ∷ b'5' ∷ b'5' ∷ b'.' ∷ b'2' ∷ b'5' ∷ b'5' ∷ b'.' ∷ b'2' ∷ b'5' ∷ b'5' ∷ b'.' ∷ b'0' ∷ []

abbrev pub default_gateway : List ℕ
default_gateway = b'1' ∷ b'9' ∷ b'2' ∷ b'.' ∷ b'1' ∷ b'6' ∷ b'8' ∷ b'.' ∷ b'1' ∷ b'.' ∷ b'1' ∷ []

module _ {S : Type 0} (net : Sockets S) where
  -- The four requests, as the body fills them in.
  abbrev pub address : List ℕ → SockAddr
  address text = record { family = af_inet; addr = net.inet_addr text }

  abbrev pub default_route : List ℕ → List ℕ → Rtentry
  default_route ifname gwip = record {
    rt_dst = record { family = af_inet; addr = 0 };
    rt_gateway = address gwip;
    rt_genmask = record { family = af_inet; addr = 0 };
    rt_dev = ifname;
    rt_flags = route_flags;
  }

  -- Each request is made only after the one before it.
  unfoldable pub request_all : List Request → S → ℤ × S
  request_all [] s = (pos 0, s)
  request_all (r ∷ rest) s =
      let (ret, s') = net.ioctl r s in
      let after = request_all rest s' in if ltb_ℤ ret (pos 0) then (negsuc 0, s') else after

  abbrev pub plan : List ℕ → List ℕ → List ℕ → List ℕ → List Request
  plan ifname ipaddr netmask gwip =
      let mask = named ifname (address netmask) in
      siocsifaddr (named ifname (address ipaddr))
      ∷ siocsifnetmask mask
      ∷ siocaddrt (default_route ifname gwip)
      ∷ siocsifflags (flags_up mask)
      ∷ []

  -- A null pointer is `none`; the mask is not tested.
  unfoldable pub ip_auto_set :
      Option (List ℕ) → Option (List ℕ) → List ℕ → Option (List ℕ) → S → ℤ × S
  unfolding request_all
  ip_auto_set none ipaddr netmask gwip s = (negsuc 0, s)
  ip_auto_set (some ifname) none netmask gwip s = (negsuc 0, s)
  ip_auto_set (some ifname) (some ipaddr) netmask none s = (negsuc 0, s)
  ip_auto_set (some ifname) (some ipaddr) netmask (some gwip) s =
      let (fd, s') = net.socket s in
      if is_minus_one fd then (negsuc 0, s') else request_all (plan ifname ipaddr netmask gwip) s'

  -- The value is -1 for a slot that is refused, and else none: the function ends without a `return`,
  -- also where `ipAutoSet` failed. `x` and `y` stand behind the default address in memory.
  unfoldable pub bmc_auto_config_eth : Process → ℕ → ℕ → ℕ → Fpga → S → Option ℤ × Fpga × S
  bmc_auto_config_eth p uninit x y f s =
      let (reg, f') = vpx3_ssd1_get_slot_info p uninit f in
      elim (slot_ip reg (default_ip x y)) [
        | none ↦ (some (negsuc 0), f', s)
        | some ip ↦ (
          none,
          f',
          (ip_auto_set (some eth1) (some (c_text ip)) default_mask (some default_gateway) s).1,
        )
      ]
