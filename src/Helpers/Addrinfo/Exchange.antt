-- ===== src/Helpers/Addrinfo/Exchange.antt =====
-- What the exchange of the two fields gives bionic code, and what it gives back to glibc.
use fake_libc.Common.{
  ℕ, refl, ◌≡◌, ap, ◌↔◌, Option, none, some, List, [], ◌∷◌, Outcome, ok, fault, ◌>>=◌, ◌⊎◌, inl,
  inr, arith,
}
use fake_libc.Helpers.Addrinfo.{
  AddrInfo, swap, swap_all, held, swap_result, my_getaddrinfo, my_freeaddrinfo,
}

-- One node in glibc's layout and in bionic's: the same data, the two fields in each other's places.
pub record SameNode (glibc bionic : AddrInfo) : Type 0 where
  pub flags : bionic.ai_flags ≡ glibc.ai_flags
  pub family : bionic.ai_family ≡ glibc.ai_family
  pub socktype : bionic.ai_socktype ≡ glibc.ai_socktype
  pub protocol : bionic.ai_protocol ≡ glibc.ai_protocol
  pub addrlen : bionic.ai_addrlen ≡ glibc.ai_addrlen
  pub addr : bionic.ai_addr ≡ glibc.ai_canonname
  pub canonname : bionic.ai_canonname ≡ glibc.ai_addr

-- Node by node.
abbrev pub SameNodes : List AddrInfo → List AddrInfo → Type 0
SameNodes [] [] = Unit {0}
SameNodes (g ∷ gs) (b ∷ bs) = SameNode g b × SameNodes gs bs
SameNodes _ _ = ⊥

swap-SameNode : (g : AddrInfo) → SameNode g (swap g)
unfolding swap
swap-SameNode g = ground arith

swap_all-SameNodes : (gs : List AddrInfo) → SameNodes gs (swap_all gs)
unfolding swap_all
swap_all-SameNodes [] = tt
swap_all-SameNodes (g ∷ gs) = (swap-SameNode g, swap_all-SameNodes gs)

swap-swap : (a : AddrInfo) → swap (swap a) ≡ a
unfolding swap
swap-swap a = refl

-- A call answers glibc's code, and the list that `*res` holds, node by node in bionic's layout.
abbrev pub Exchanges : Option (List AddrInfo) → ℕ → Outcome (ℕ × List AddrInfo) → Type 0
Exchanges held code answer =
    (gs : List AddrInfo) × (out : List AddrInfo) × (held ≡ some gs)
    × (answer ≡ ok (code, out))
    × SameNodes gs out

abbrev with_code : ℕ → Outcome (List AddrInfo) → Outcome (ℕ × List AddrInfo)
with_code code walked = walked >>= λ out. ok (code, out)

swap_result-cases :
    (code : ℕ) (stored res : Option (List AddrInfo))
    → Exchanges stored code (with_code code (swap_result (held stored res)))
      ⊎ ((stored ≡ none)
          × (Exchanges res code (with_code code (swap_result (held stored res)))
              ⊎ ((res ≡ none) × (with_code code (swap_result (held stored res)) ≡ fault))))
unfolding held swap_result
swap_result-cases code (some gs) res = inl (gs, swap_all gs, refl, refl, swap_all-SameNodes gs)
swap_result-cases code none (some gs) =
    inr (refl, inl (gs, swap_all gs, refl, refl, swap_all-SameNodes gs))
swap_result-cases code none none = inr (refl, inr (refl, refl))

-- With hints, glibc is asked with a copy of them in its own layout. Where it stores a list in
-- *res, the caller gets its code and that list, node by node in bionic's layout; where it stores
-- none, as on a failure, the list that the caller had in *res is exchanged in its place; and
-- where the caller had none there, the variable is read unset. Without hints the function reads
-- through a null pointer.
pub getaddrinfo-SameNodes :
    (glibc_getaddrinfo : ℕ → ℕ → AddrInfo → Option (List AddrInfo) → ℕ × Option (List AddrInfo))
    (host serv : ℕ) (hints : AddrInfo) (res : Option (List AddrInfo))
    → let (code, stored) = glibc_getaddrinfo host serv (swap hints) res in
      let answer = my_getaddrinfo glibc_getaddrinfo host serv (some hints) res in
      SameNode hints (swap hints)
      × (Exchanges stored code answer
          ⊎ ((stored ≡ none) × (Exchanges res code answer ⊎ ((res ≡ none) × (answer ≡ fault)))))
      × (my_getaddrinfo glibc_getaddrinfo host serv none res ≡ fault)
unfolding my_getaddrinfo
getaddrinfo-SameNodes glibc_getaddrinfo host serv hints res =
    let asked = glibc_getaddrinfo host serv (swap hints) res in
    (swap-SameNode hints, swap_result-cases asked.0 asked.1 res, refl)

-- A list of glibc's, made bionic's and freed, comes back to glibc with its first node restored
-- and the others still exchanged: it is glibc's own list if and only if exchanging the further
-- nodes changes nothing; an empty list is read through a null pointer.
pub freeaddrinfo-swap_all :
    (g : AddrInfo) (gs : List AddrInfo)
    → (my_freeaddrinfo (swap_all (g ∷ gs)) ≡ ok (g ∷ swap_all gs))
      × ((my_freeaddrinfo (swap_all (g ∷ gs)) ≡ ok (g ∷ gs)) ↔ (swap_all gs ≡ gs))
      × (my_freeaddrinfo (swap_all []) ≡ fault)
unfolding my_freeaddrinfo swap_all swap
freeaddrinfo-swap_all g gs = (refl, ((λ h. cc), (λ h. ap (λ l. ok (g ∷ l)) h)), refl)
