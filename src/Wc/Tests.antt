-- ===== src/Wc/Tests.antt =====
-- A word that two reads share, and a witness that the theorem on wc applies.
use fp_sisop20_f.Base.{ℕ, ◌≡◌, ◌%◌, ◌^◌, Bool, false, some, List, [], ◌∷◌, length}
use fp_sisop20_f.Wc.{wc}
use fp_sisop20_f.Wc.Words.{concat, newlines, words, wc-words}

-- "ab", "c d" and a line end
abbrev two_reads : List (List ℕ)
two_reads = (97 ∷ 98 ∷ []) ∷ (99 ∷ 32 ∷ 100 ∷ 10 ∷ []) ∷ []

wc-words_example :
    (inword : Bool) × (wc two_reads false
      ≡ some (record {
        l = newlines (concat two_reads) % 2 ^ 32;
        w = length (words [] (concat two_reads)) % 2 ^ 32;
        c = length (concat two_reads) % 2 ^ 32;
        inword = inword;
      }))
wc-words_example = wc-words two_reads false
