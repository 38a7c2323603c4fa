-- ===== src/Bmc/NetLaws.antt =====
-- Which requests `ipAutoSet` makes. The socket layer is watched: it keeps the requests in order.
use mathlib.Core.List.{append_assoc, append-nil}
use mathlib.Core.Path.{subst}
use powerpc_i2c_temp.Prelude.{
  ℕ, ◌≡◌, ◌≢◌, ◌⊎◌, inl, inr, refl, ap, sym, ◌∙◌, arith, true, false, none, some, Option, List, [],
  ◌∷◌, ◌++◌, set, Bool-cases,
}
use powerpc_i2c_temp.Prelude.Int.{ℤ, pos, negsuc, ltb_ℤ}
use powerpc_i2c_temp.Rmu.Entries.{if-eq_true, if-eq_false}
use powerpc_i2c_temp.Bmc.Net.{
  SockAddr, Ifreq, Request, siocsifaddr, siocsifnetmask, siocsifflags, siocaddrt, Sockets, plan,
  request_all, ip_auto_set, is_minus_one, strncpy,
}

pub record Watched (S : Type 0) : Type 0 where
  pub state : S
  pub log : List Request

abbrev pub watched : {S : Type 0} → Sockets S → Sockets (Watched S)
watched net = record {
  socket = λ l. let (fd, s) = net.socket l.state in (fd, record l { state = s });
  inet_addr = net.inet_addr;
  ioctl = λ r l.
      let (ret, s) = net.ioctl r l.state in (ret, record { state = s; log = l.log ++ (r ∷ []) });
}

-- The state of the socket layer after the requests, and that it granted each of them.
abbrev pub after_requests : {S : Type 0} → Sockets S → List Request → S → S
after_requests net [] s = s
after_requests net (r ∷ rs) s = after_requests net rs (net.ioctl r s).1

abbrev pub Granted : {S : Type 0} → Sockets S → List Request → S → Type 0
Granted net [] s = Unit
Granted net (r ∷ rs) s =
    (ltb_ℤ (net.ioctl r s).0 (pos 0) ≡ false) × Granted net rs (net.ioctl r s).1

-- All requests were granted and made and the result is 0; or those before one were granted, that one was refused, it was
-- the last that was made, and the result is -1.
abbrev pub Requested :
    {S : Type 0} → Sockets S → List Request → S → List Request → ℤ → List Request → Type 0
Requested net rs s before ret log =
    (Granted net rs s × (ret ≡ pos 0) × (log ≡ before ++ rs))
    ⊎ ((made : List Request) × (failed : Request) × (rest : List Request) × (made ++ (failed ∷ rest)
          ≡ rs)
        × Granted net made s
        × (ltb_ℤ (net.ioctl failed (after_requests net made s)).0 (pos 0) ≡ true)
        × (ret ≡ negsuc 0)
        × (log ≡ before ++ (made ++ (failed ∷ []))))

Requested-cons :
    {S : Type 0} (net : Sockets S) (r : Request) (rs : List Request) (s : S) (before : List Request)
    (ret : ℤ) (log : List Request)
    → ltb_ℤ (net.ioctl r s).0 (pos 0) ≡ false
    → Requested net rs (net.ioctl r s).1 (before ++ (r ∷ [])) ret log
    → Requested net (r ∷ rs) s before ret log
Requested-cons net r rs s before ret log good (inl (granted, zero, e)) =
    inl ((good, granted), zero, e ∙ append_assoc before (r ∷ []) rs)
Requested-cons net r rs s before ret log good
      (inr (made, failed, rest, e, granted, bad, minus, l)) =
    inr (
      r ∷ made,
      failed,
      rest,
      ap (λ t. r ∷ t) e,
      (good, granted),
      bad,
      minus,
      l ∙ append_assoc before (r ∷ []) (made ++ (failed ∷ [])),
    )

not_minus_one : (fd : ℤ) → fd ≢ negsuc 0 → is_minus_one fd ≡ false
not_minus_one (pos n) h = refl
not_minus_one (negsuc n) h = ground arith

module _ {S : Type 0} (net : Sockets S) where
  request_all-Requested :
      (rs : List Request) (l : Watched S)
      → let (ret, l') = request_all (watched net) rs l in Requested net rs l.state l.log ret l'.log
  unfolding request_all
  request_all-Requested [] l = inl (tt, refl, sym (append-nil l.log))
  request_all-Requested (r ∷ rs) l =
      let after = λ (o : ℤ × Watched S). Requested net (r ∷ rs) l.state l.log o.0 o.1.log in
      elim (Bool-cases (ltb_ℤ (net.ioctl r l.state).0 (pos 0))) [
        | inl bad ↦
            subst after (sym (if-eq_true _ _ _ bad)) (inr ([], r, rs, refl, tt, bad, refl, refl))
        | inr good ↦
            let l' : Watched S = record {
              state = (net.ioctl r l.state).1;
              log = l.log ++ (r ∷ []);
            } in
            subst after (sym (if-eq_false _ _ _ good))
              (Requested-cons net r rs l.state l.log _ _ good (request_all-Requested rs l'))
      ]

  -- With all pointers given and a socket, `ipAutoSet` asks for the address, the network mask, the default
  -- route and the flags, in this order. It returns 0 where the socket layer grants all four, each in the state that the
  -- ones before it left, and else -1 after the first that it refuses, which is then the last made. The flags, 0x43, keep
  -- the address family 2 of the mask beside IFF_UP and IFF_RUNNING.
  pub ip_auto_set-Requested :
      (ifname ipaddr netmask gwip : List ℕ) (s : S)
      → (net.socket s).0 ≢ negsuc 0
      → let (ret, l) =
          ip_auto_set
            (watched net)
            (some ifname)
            (some ipaddr)
            netmask
            (some gwip)
            (record { state = s; log = [] }) in
        let name = set (strncpy 16 ifname) 15 0 in
        let inet = λ (a : ℕ). let r : SockAddr = record { family = 2; addr = a } in r in
        let if_request =
          λ (a : SockAddr). let r : Ifreq = record { ifr_name = name; ifr_addr = a } in r in
        Requested net
          (siocsifaddr (if_request (inet (net.inet_addr ipaddr)))
            ∷ siocsifnetmask (if_request (inet (net.inet_addr netmask)))
            ∷ siocaddrt (record {
              rt_dst = inet 0;
              rt_gateway = inet (net.inet_addr gwip);
              rt_genmask = inet 0;
              rt_dev = ifname;
              rt_flags = 3;
            })
            ∷ siocsifflags (if_request (record { family = 0x43; addr = net.inet_addr netmask }))
            ∷ [])
          (net.socket s).1
          []
          ret
          l.log
  unfolding ip_auto_set
  ip_auto_set-Requested ifname ipaddr netmask gwip s h = rw (not_minus_one (net.socket s).0 h) (
      request_all-Requested (plan (watched net) ifname ipaddr netmask gwip)
        (record { state = (net.socket s).1; log = [] }))

-- A null name, address or gateway, and a refused socket, end the call with -1 before any request.
pub ip_auto_set_refused :
    {S : Type 0} (net : Sockets S) (ifname ipaddr gwip : Option (List ℕ)) (netmask : List ℕ) (s : S)
    → (ifname ≡ none) ⊎ (ipaddr ≡ none) ⊎ (gwip ≡ none) ⊎ ((net.socket s).0 ≡ negsuc 0)
    → let (ret, l) =
        ip_auto_set (watched net) ifname ipaddr netmask gwip (record { state = s; log = [] }) in
      (ret ≡ negsuc 0) × (l.log ≡ [])
unfolding ip_auto_set
ip_auto_set_refused net none ipaddr gwip netmask s h = (refl, refl)
ip_auto_set_refused net (some n) none gwip netmask s h = (refl, refl)
ip_auto_set_refused net (some n) (some a) none netmask s h = (refl, refl)
ip_auto_set_refused net (some n) (some a) (some g) netmask s h =
    let e : is_minus_one (net.socket s).0 ≡ true = ground arith in rw e (refl, refl)
