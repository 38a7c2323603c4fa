-- ===== src/Bmc/Ipset.antt =====
-- `ipset` of app/bmc/ipset.c, the tool that sets an address by hand, request by request, and its `main`. It
-- uses the socket layer of `Net`.
use powerpc_i2c_temp.Prelude.{ℕ, ◌≡◌, refl, if◌then◌else◌, Option, none, some, List, [], ◌∷◌, set}
use powerpc_i2c_temp.Prelude.Int.{ℤ, pos, negsuc, ltb_ℤ}
use powerpc_i2c_temp.Bmc.Net.{
  SockAddr, Ifreq, Rtentry, siocsifaddr, siocsifnetmask, siocsifflags, siocaddrt, Sockets, af_inet,
  ifnamsiz, route_flags, strncpy, flags_up, is_minus_one, default_mask, default_gateway,
  ip_auto_set,
}

abbrev em1 : List ℕ
em1 = b'e' ∷ b'm' ∷ b'1' ∷ []

abbrev hand_address : List ℕ
hand_address =
    b'1' ∷ b'9' ∷ b'2' ∷ b'.' ∷ b'1' ∷ b'6' ∷ b'8' ∷ b'.' ∷ b'1' ∷ b'.' ∷ b'2' ∷ b'5' ∷ b'0' ∷ []

module _ {S : Type 0} (net : Sockets S) where
  -- The body after the tests for null: each request, and the return after one that fails.
  ipset_requests : List ℕ → List ℕ → List ℕ → List ℕ → S → ℤ × S
  ipset_requests ifname ipaddr netmask gwip s =
      let name = set (strncpy ifnamsiz ifname) 15 0 in
      let sin : SockAddr = record { family = af_inet; addr = net.inet_addr ipaddr } in
      let ifr : Ifreq = record { ifr_name = name; ifr_addr = sin } in
      let (ret1, s1) = net.ioctl (siocsifaddr ifr) s in
      let sin' : SockAddr = record { family = af_inet; addr = net.inet_addr netmask } in
      let ifr' : Ifreq = record { ifr_name = name; ifr_addr = sin' } in
      let (ret2, s2) = net.ioctl (siocsifnetmask ifr') s1 in
      let rm : Rtentry = record {
        rt_dst = record { family = af_inet; addr = 0 };
        rt_gateway = record { family = af_inet; addr = net.inet_addr gwip };
        rt_genmask = record { family = af_inet; addr = 0 };
        rt_dev = ifname;
        rt_flags = route_flags;
      } in
      let (ret3, s3) = net.ioctl (siocaddrt rm) s2 in
      let (ret4, s4) = net.ioctl (siocsifflags (flags_up ifr')) s3 in
      if ltb_ℤ ret1 (pos 0)
      then (negsuc 0, s1)
      else (if ltb_ℤ ret2 (pos 0)
          then (negsuc 0, s2)
          else (if ltb_ℤ ret3 (pos 0)
              then (negsuc 0, s3)
              else (if ltb_ℤ ret4 (pos 0) then (negsuc 0, s4) else (pos 0, s4))))

  pub ipset : Option (List ℕ) → Option (List ℕ) → List ℕ → Option (List ℕ) → S → ℤ × S
  unfolding ipset_requests
  ipset none ipaddr netmask gwip s = (negsuc 0, s)
  ipset (some ifname) none netmask gwip s = (negsuc 0, s)
  ipset (some ifname) (some ipaddr) netmask none s = (negsuc 0, s)
  ipset (some ifname) (some ipaddr) netmask (some gwip) s =
      let (fd, s') = net.socket s in
      if is_minus_one fd then (negsuc 0, s') else ipset_requests ifname ipaddr netmask gwip s'

  -- `main` ignores the result.
  pub ipset_main : S → S
  unfolding ipset
  ipset_main s = (ipset (some em1) (some hand_address) default_mask (some default_gateway) s).1

  -- On every input and socket layer, `ipset` makes the same requests, and gives the same result, as
  -- `ipAutoSet`.
  pub ipset-ip_auto_set :
      (ifname ipaddr gwip : Option (List ℕ)) (netmask : List ℕ) (s : S)
      → ipset ifname ipaddr netmask gwip s ≡ ip_auto_set net ifname ipaddr netmask gwip s
  unfolding ipset ip_auto_set
  ipset-ip_auto_set none ipaddr gwip netmask s = refl
  ipset-ip_auto_set (some n) none gwip netmask s = refl
  ipset-ip_auto_set (some n) (some a) none netmask s = refl
  ipset-ip_auto_set (some n) (some a) (some g) netmask s = refl
