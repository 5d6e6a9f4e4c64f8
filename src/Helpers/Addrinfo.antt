-- ===== src/Helpers/Addrinfo.antt =====
-- `my_getaddrinfo` and `my_freeaddrinfo`: bionic and glibc have the fields `ai_canonname` and `ai_addr`
-- of `struct addrinfo` in different orders, so the code swaps them. A linked list is a list of nodes.
pub mod Exchange
use fake_libc.Common.{ℕ, Option, none, some, List, [], ◌∷◌, Outcome, ok, fault, ◌>>=◌}

pub record AddrInfo : Type 0 where
  pub ai_flags : ℕ
  pub ai_family : ℕ
  pub ai_socktype : ℕ
  pub ai_protocol : ℕ
  pub ai_addrlen : ℕ
  pub ai_addr : ℕ
  pub ai_canonname : ℕ

-- `swap` on the two fields of a node.
unfoldable pub swap : AddrInfo → AddrInfo
swap it = record it { ai_addr = it.ai_canonname; ai_canonname = it.ai_addr }

-- The loop over the result.
unfoldable pub swap_all : List AddrInfo → List AddrInfo
swap_all [] = []
swap_all (it ∷ rest) = swap it ∷ swap_all rest

-- What `*res` holds after a call that stores `stored` in it.
unfoldable pub held : Option (List AddrInfo) → Option (List AddrInfo) → Option (List AddrInfo)
held none res = res
held (some stored) res = some stored

-- The walk through `*res` and its exchange; `none` stands for a variable that has never been set, whose
-- value is taken for a pointer.
unfoldable pub swap_result : Option (List AddrInfo) → Outcome (List AddrInfo)
unfolding swap_all
swap_result none = fault
swap_result (some res) = ok (swap_all res)

-- glibc's function is given the names, the hints and what `*res` holds, and answers a code and what
-- it stores in `*res`: `none` if it stores nothing. Null hints are read from nonetheless.
unfoldable pub my_getaddrinfo :
    (ℕ → ℕ → AddrInfo → Option (List AddrInfo) → ℕ × Option (List AddrInfo))
    → ℕ
    → ℕ
    → Option AddrInfo
    → Option (List AddrInfo)
    → Outcome (ℕ × List AddrInfo)
unfolding swap swap_result held
my_getaddrinfo glibc_getaddrinfo hostname servname none res = fault
my_getaddrinfo glibc_getaddrinfo hostname servname (some hints) res =
    let (result, stored) = glibc_getaddrinfo hostname servname (swap hints) res in
    swap_result (held stored res) >>= λ out. ok (result, out)

-- The list that is handed to glibc's `freeaddrinfo`; a null argument is read from.
unfoldable pub my_freeaddrinfo : List AddrInfo → Outcome (List AddrInfo)
unfolding swap
my_freeaddrinfo [] = fault
my_freeaddrinfo (ai ∷ rest) = ok (swap ai ∷ rest)
