-- ===== src/Tests/Helpers.antt =====
-- Directory entries and address lists.
use fake_libc.Common.{
  ℕ, zero, suc, ◌≡◌, ◌==◌, ◌⊎◌, if◌then◌else◌, refl, Option, none, some, List, [], ◌∷◌, replicate,
  ok, fault,
}
use fake_libc.Helpers.Dirent.{GlibcDirent, BionicDirent}
use fake_libc.Helpers.Addrinfo.{AddrInfo, swap, swap_all, my_getaddrinfo, my_freeaddrinfo}
use fake_libc.Helpers.Addrinfo.Exchange.{SameNode, Exchanges, getaddrinfo-SameNodes}

abbrev dot : GlibcDirent
dot = record { d_ino = 11; d_off = 1; d_reclen = 268; d_type = 4; d_name = b'.' ∷ replicate 255 0 }

abbrev filled : GlibcDirent
filled = record { d_ino = 12; d_off = 2; d_reclen = 268; d_type = 8; d_name = replicate 256 b'x' }

abbrev blank : BionicDirent
blank = record { d_ino = 0; d_off = 0; d_reclen = 0; d_type = 0; d_name = replicate 256 0 }

-- Directory 1 has an entry, 2 is at its end, any other is an error.
abbrev read_r : ℕ → ℕ × Option GlibcDirent
read_r zero = (9, none)
read_r (suc zero) = (0, some filled)
read_r (suc (suc zero)) = (0, none)
read_r (suc (suc (suc d))) = (9, none)

abbrev read : ℕ → Option GlibcDirent
read zero = some dot
read (suc zero) = some filled
read (suc (suc d)) = none

abbrev node : ℕ → ℕ → AddrInfo
node addr name = record {
  ai_flags = 2;
  ai_family = 2;
  ai_socktype = 1;
  ai_protocol = 6;
  ai_addrlen = 16;
  ai_addr = addr;
  ai_canonname = name;
}

-- Host 1 has two addresses, the first with a canonical name, in glibc's layout; for any other host
-- nothing is stored.
abbrev two_addresses : ℕ → ℕ → AddrInfo → Option (List AddrInfo) → ℕ × Option (List AddrInfo)
two_addresses host serv hints res =
    if host == 1 then (0, some (node 1001 900 ∷ node 1002 0 ∷ [])) else (4294967294, none)

abbrev unset : Option (List AddrInfo)
unset = none

getaddrinfo-SameNodes_example :
    let answer = my_getaddrinfo two_addresses 7 2 (some (node 0 0)) unset in
    SameNode (node 0 0) (swap (node 0 0))
    × (Exchanges unset 4294967294 answer
        ⊎ ((unset ≡ none)
            × (Exchanges unset 4294967294 answer ⊎ ((unset ≡ none) × (answer ≡ fault)))))
    × (my_getaddrinfo two_addresses 7 2 none unset ≡ fault)
getaddrinfo-SameNodes_example = getaddrinfo-SameNodes two_addresses 7 2 (node 0 0) unset

-- The second node goes back to glibc with the address in the place of the name.
second_exchanged :
    my_freeaddrinfo (swap_all (node 1001 900 ∷ node 1002 0 ∷ []))
    ≡ ok (node 1001 900 ∷ node 0 1002 ∷ [])
unfolding my_freeaddrinfo swap_all
second_exchanged = refl
