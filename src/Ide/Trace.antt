-- ===== src/Ide/Trace.antt =====
-- Requests and interrupts in any order: the queue of the disk is first in, first out.
use fp_sisop20_f.Base.{
  ℕ, suc, ◌≤◌, ◌≡◌, ◌≢◌, refl, ◌∙◌, ap, sym, subst, arith, Bool, true, false, ◌||◌, Option, none,
  some, List, [], ◌∷◌, ◌++◌, append-nil, append_assoc, ◌==◌, length, length-append, update,
  update_self, update_ne, min, Result, ok, panic, ◌>>=◌,
}
use fp_sisop20_f.Bcache.{Buf}
use fp_sisop20_f.Ide.{Ide, ideintr, serve, is_done, iderw, commands}
use fp_sisop20_f.Ide.Queue.{member}
use fp_sisop20_f.Ide.Fifo.{Started, IsSound, ideintr-Serves, iderw-Queued}

-- The owner of a buffer hands it to the disk, with what the buffer is then, or the disk interrupts.
pub data Event : Type 0 where
  request : ℕ → Buf → Event
  interrupt : (answer : Option (ℕ → ℕ)) → Event

abbrev pub handed : ℕ → Buf → Ide → Ide
handed i b s = record s { bufs = update s.bufs i b }

abbrev pub and_woken : Option ℕ → Result (List ℕ × Ide) → Result (List ℕ × Ide)
and_woken w panic = panic
and_woken none (ok (ws, s)) = ok (ws, s)
and_woken (some i) (ok (ws, s)) = ok (i ∷ ws, s)

-- The buffers whose processes are woken, in order, and the state behind all events.
unfoldable pub run : (rounds : ℕ) → List Event → Ide → Result (List ℕ × Ide)
run rounds [] s = ok ([], s)
run rounds (request i b ∷ es) s = iderw rounds i (handed i b s) >>= run rounds es
run rounds (interrupt answer ∷ es) s =
    ideintr answer s >>= λ (w, s'). and_woken w (run rounds es s')

-- The same on a list: what leaves it, and what is left.
abbrev pub fifo : List Event → List ℕ → List ℕ × List ℕ
fifo [] q = ([], q)
fifo (request i b ∷ es) q = fifo es (q ++ i ∷ [])
fifo (interrupt answer ∷ es) [] = fifo es []
fifo (interrupt answer ∷ es) (i ∷ l) = let (ws, left) = fifo es l in (i ∷ ws, left)

abbrev pub requests : List Event → List ℕ
requests [] = []
requests (request i b ∷ es) = i ∷ requests es
requests (interrupt answer ∷ es) = requests es

abbrev pub interrupts : List Event → ℕ
interrupts [] = 0
interrupts (request i b ∷ es) = interrupts es
interrupts (interrupt answer ∷ es) = suc (interrupts es)

-- Who requests has the buffer to itself, has work for the disk, and the disk is there.
abbrev pub Allowed : (rounds : ℕ) → (havedisk1 : Bool) → List Event → List ℕ → Type 0
Allowed rounds h [] q = Unit
Allowed rounds h (request i b ∷ es) q =
    (member i q ≡ false)
    × (length q ≤ rounds)
    × (b.busy ≡ true)
    × (is_done b ≡ false)
    × (((b.dev == 0) || h) ≡ true)
    × Allowed rounds h es (q ++ i ∷ [])
Allowed rounds h (interrupt answer ∷ es) [] = Allowed rounds h es []
Allowed rounds h (interrupt answer ∷ es) (i ∷ l) = Allowed rounds h es l

handed-IsSound :
    (i : ℕ) (b : Buf) (s : Ide) (q : List ℕ)
    → IsSound s q
    → member i q ≡ false
    → IsSound (handed i b s) q
handed-IsSound i b s q v m = record {
  linked = v.linked;
  apart = v.apart;
  started = same_head q v.started m;
  waiting = λ j n.
      let ne : j ≢ i = λ e. let c = subst (λ t. member t q ≡ true) e n in absurd (cc) in
      ap is_done (update_ne s.bufs i b j ne) ∙ v.waiting j n;
}
  where
    same_head : (q : List ℕ) → Started s q → member i q ≡ false → Started (handed i b s) q
    same_head [] h m = tt
    same_head (x ∷ l) (older, e) m =
        (older, e ∙ ap (λ b. commands b ∷ older) (sym (update_ne s.bufs i b x (ground arith))))

ideintr_idle :
    (answer : Option (ℕ → ℕ)) (s : Ide) → s.idequeue ≡ none → ideintr answer s ≡ ok (none, s)
unfolding ideintr
ideintr_idle answer s e = ap (λ o. serve answer o s) e

fifo_lem :
    (es : List Event) (q : List ℕ)
    → ((fifo es q).0 ++ (fifo es q).1 ≡ q ++ requests es)
      × (min (interrupts es) (length q) ≤ length (fifo es q).0)
fifo_lem [] q = (sym (append-nil q), omega arith)
fifo_lem (request i b ∷ es) q =
    let (e, l) = fifo_lem es (q ++ i ∷ []) in
    (e ∙ append_assoc q (i ∷ []) (requests es), omega (arith, l, length-append q (i ∷ [])))
fifo_lem (interrupt answer ∷ es) [] = let (e, l) = fifo_lem es [] in (e, omega arith)
fifo_lem (interrupt answer ∷ es) (i ∷ q) =
    let (e, l) = fifo_lem es q in (ap (λ t. i ∷ t) e, omega (arith, l))

-- The disk's queue against a list. From a sound state, and requests that their owners may make, no
-- request panics; the processes that are woken, and then the requests that are left, are in order those
-- that were queued and then those that were made; of the queue at the start, as many are served as there
-- are interrupts, or all; and the state that is left is sound again.
pub run-requests :
    (rounds : ℕ) (es : List Event) (s : Ide) (q : List ℕ)
    → IsSound s q
    → Allowed rounds s.havedisk1 es q
    → (woken : List ℕ) × (left : List ℕ) × (s' : Ide) × (run rounds es s ≡ ok (woken, s'))
      × IsSound s' left
      × (woken ++ left ≡ q ++ requests es)
      × (min (interrupts es) (length q) ≤ length woken)
unfolding run
run-requests rounds es s q v a =
    let (s', e, w) = runs es s q v a in
    let (o, l) = fifo_lem es q in ((fifo es q).0, (fifo es q).1, s', e, w, o, l)
  where
    runs :
        (es : List Event) (s : Ide) (q : List ℕ)
        → IsSound s q
        → Allowed rounds s.havedisk1 es q
        → (s' : Ide) × (run rounds es s ≡ ok ((fifo es q).0, s')) × IsSound s' (fifo es q).1
    runs [] s q v a = (s, refl, v)
    runs (request i b ∷ es) s q v (m, l, y, d, p, a) =
        let n = update_self s.bufs i b in
        let (s1, e, w, _, h) =
          iderw-Queued rounds i (handed i b s) q (handed-IsSound i b s q v m) m l
            (ap Buf.busy n ∙ y) (ap is_done n ∙ d) (ap (λ c. (c.dev == 0) || s.havedisk1) n ∙ p) in
        let (s2, f, u) =
          runs es s1 (q ++ i ∷ []) w (subst (λ h. Allowed rounds h es (q ++ i ∷ [])) (sym h) a) in
        (s2, rw e f, u)
    runs (interrupt answer ∷ es) s [] v a =
        let (s1, f, u) = runs es s [] v a in (s1, rw (ideintr_idle answer s v.linked, f) refl, u)
    runs (interrupt answer ∷ es) s (i ∷ l) v a =
        let (s1, e, (w, _, _, h)) = ideintr-Serves answer s i l v in
        let (s2, f, u) = runs es s1 l w (subst (λ h. Allowed rounds h es l) (sym h) a) in
        (s2, rw (e, f) refl, u)
