-- ===== src/Inode/Tests.antt =====
-- An empty cache, and a witness that the theorem on it applies.
use fp_sisop20_f.Base.{ℕ, ◌≡◌, ◌⊎◌, refl, false, ok, panic}
use fp_sisop20_f.Inode.{Dinode, Inode, Icache, iget}
use fp_sisop20_f.Inode.Cache.{AllUsed, IsUnique, Gets, iget-Gets}

abbrev blank : Dinode
blank = record { type = 0; major = 0; minor = 0; nlink = 0; size = 0; addrs = λ _. 0 }

abbrev unused_slot : Inode
unused_slot = record { dev = 0; inum = 0; ref = 0; busy = false; valid = false; copy = blank }

abbrev empty_cache : Icache
empty_cache = record { slots = λ _. unused_slot; disk = λ _ _. blank }

empty_cache-IsUnique : IsUnique empty_cache
empty_cache-IsUnique = record { one = λ i j a b p q d e. absurd (p refl) }

iget-Gets_example :
    ((iget 1 5 empty_cache ≡ panic) × AllUsed empty_cache)
    ⊎ ((i : ℕ) × (c' : Icache) × (iget 1 5 empty_cache ≡ ok (i, c')) × Gets 1 5 i empty_cache c')
iget-Gets_example = iget-Gets 1 5 empty_cache empty_cache-IsUnique
