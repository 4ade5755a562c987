-- ===== src/Ide/Fifo.antt =====
-- Requests and interrupts in any order.
use fp_sisop20_f.Base.{
  ℕ, ◌≤◌, ◌≡◌, ◌≢◌, refl, ◌∙◌, ap, sym, subst, arith, true, false, not, ◌||◌, ◌&&◌, Bool-cases, inl,
  inr, ◌⊎◌, Option, none, some, List, [], ◌∷◌, ◌++◌, ◌==◌, length, update, update_self, update_ne,
  if◌then◌else◌, ok, ltb, ◌<◌,
}
use fp_sisop20_f.Bcache.{Buf}
use fp_sisop20_f.Ide.{
  Out, Ide, commands, idestart, finished, serve, ideintr, end_loop, put_at, is_first, is_done,
  iderw,
}
use fp_sisop20_f.Ide.Queue.{
  Linked, member, Apart, update-Linked, Apart-snoc, member-snoc, append-Linked,
}

-- What was sent last is the request of the head of the queue.
abbrev pub Started : Ide → List ℕ → Type 0
Started s [] = Unit
Started s (i ∷ l) = (older : List (List Out)) × (s.sent ≡ commands (s.bufs i) ∷ older)

-- The queue is `q`, without a buffer twice; the controller works on the head; none is done yet.
pub record IsSound (s : Ide) (q : List ℕ) : Type 0 where
  pub linked : Linked s.qnext s.idequeue q
  pub apart : Apart q
  pub started : Started s q
  pub waiting : (j : ℕ) → member j q ≡ true → is_done (s.bufs j) ≡ false

-- what is left of a buffer whose request is completed
pub record Completed (answer : Option (ℕ → ℕ)) (b b' : Buf) : Type 0 where
  pub valid : b'.valid ≡ true
  pub clean : b'.dirty ≡ false
  pub same_place : (b'.dev ≡ b.dev) × (b'.sector ≡ b.sector) × (b'.busy ≡ b.busy)
  pub written : b.dirty ≡ true → b'.bytes ≡ b.bytes
  pub failed : answer ≡ none → b'.bytes ≡ b.bytes
  pub read :
      (sector : ℕ → ℕ)
      → b.dirty ≡ false
      → answer ≡ some sector
      → (j : ℕ) → j < 512
      → b'.bytes j ≡ sector j

finished-Completed : (answer : Option (ℕ → ℕ)) (b : Buf) → Completed answer b (finished answer b)
finished-Completed answer b = record {
  valid = refl;
  clean = refl;
  same_place = (refl, refl, refl);
  written = λ d. rw d refl;
  failed = λ n. elim (Bool-cases b.dirty) [ inl d ↦ rw d refl | inr d ↦ rw (n, d) refl ];
  read = λ sector d n j l. let t : ltb j 512 ≡ true = ground (arith, l) in rw (n, d) (rw t refl);
}

-- behind an interrupt, whose first request was that of `i`
abbrev pub Serves : Option (ℕ → ℕ) → Ide → (i : ℕ) → List ℕ → Ide → Type 0
Serves answer s i l s' =
    IsSound s' l
    × Completed answer (s.bufs i) (s'.bufs i)
    × ((j : ℕ) → j ≢ i → s'.bufs j ≡ s.bufs j)
    × (s'.havedisk1 ≡ s.havedisk1)

-- An interrupt, in a sound state with a request, completes the first: its buffer is valid and clean,
-- holds what it held if it was written, and if it was read the sector, or what it held if the disk told an
-- error; the process that sleeps on it is woken, the next request is sent, and no other buffer
-- changes.
pub ideintr-Serves :
    (answer : Option (ℕ → ℕ)) (s : Ide) (i : ℕ) (l : List ℕ)
    → IsSound s (i ∷ l)
    → (s' : Ide) × (ideintr answer s ≡ ok (some i, s')) × Serves answer s i l s'
unfolding ideintr idestart
ideintr-Serves answer s i l v =
    let (e, k) = v.linked in
    let (a, apart) = v.apart in rw e (by_next l k a apart (λ j m. v.waiting j (ground (arith, m))))
  where
    by_next :
        (l : List ℕ)
        → Linked s.qnext (s.qnext i) l
        → member i l ≡ false
        → Apart l
        → ((j : ℕ) → member j l ≡ true → is_done (s.bufs j) ≡ false)
        → (s' : Ide) × (serve answer (some i) s ≡ ok (some i, s')) × Serves answer s i l s'
    by_next [] e a p w = rw e (
      record s { idequeue = none; bufs = update s.bufs i (finished answer (s.bufs i)) },
      refl,
      (
        record { linked = refl; apart = tt; started = tt; waiting = λ j m. absurd (cc) },
        subst (Completed answer (s.bufs i))
            (sym (update_self s.bufs i (finished answer (s.bufs i))))
            (finished-Completed answer (s.bufs i)),
        λ j ne. update_ne s.bufs i (finished answer (s.bufs i)) j ne,
        refl,
      ),
    )
    by_next (n ∷ l) (e, k) a p w =
        let done = finished answer (s.bufs i) in
        let bufs = update s.bufs i done in
        rw e (
          record s { idequeue = some n; bufs = bufs; sent = commands (bufs n) ∷ s.sent },
          refl,
          (
            record {
              linked = (refl, k);
              apart = p;
              started = (s.sent, refl);
              waiting = λ j m.
                  let ne : j ≢ i =
                    λ q. let c = subst (λ t. member t (n ∷ l) ≡ true) q m in absurd (cc) in
                  ap is_done (update_ne s.bufs i done j ne) ∙ w j m;
            },
            subst (Completed answer (s.bufs i)) (sym (update_self s.bufs i done))
                (finished-Completed answer (s.bufs i)),
            λ j ne. update_ne s.bufs i done j ne,
            refl,
          ),
        )

-- iderw on a buffer that is not queued, with work to do
pub iderw-Queued :
    (rounds : ℕ) (i : ℕ) (s : Ide) (q : List ℕ)
    → IsSound s q
    → member i q ≡ false
    → length q ≤ rounds
    → (s.bufs i).busy ≡ true
    → is_done (s.bufs i) ≡ false
    → (((s.bufs i).dev == 0) || s.havedisk1) ≡ true
    → (s' : Ide) × (iderw rounds i s ≡ ok s')
      × IsSound s' (q ++ i ∷ [])
      × (s'.bufs ≡ s.bufs)
      × (s'.havedisk1 ≡ s.havedisk1)
unfolding iderw idestart
iderw-Queued rounds i s q v m h b d p =
    let no_panic : (not ((s.bufs i).dev == 0) && not s.havedisk1) ≡ false = ground arith in
    let f = update s.qnext i none in
    let c =
      append-Linked rounds f s.idequeue i q (update-Linked s.qnext i none s.idequeue q m v.linked)
        v.apart m (update_self s.qnext i none) h in
    rw (b, d, no_panic) (by_end (end_loop rounds f s.idequeue none) c)
  where
    Goal : Option ℕ → Type 0
    Goal o =
        let s1 = put_at o i (record s { qnext = update s.qnext i none }) in
        (s' : Ide) × ((if is_first i s1.idequeue then idestart (some i) s1 else ok s1) ≡ ok s')
        × IsSound s' (q ++ i ∷ [])
        × (s'.bufs ≡ s.bufs)
        × (s'.havedisk1 ≡ s.havedisk1)

    by_end :
        (o : Option ℕ)
        → (((q ≡ []) × (o ≡ none))
            ⊎ ((e : ℕ) × (o ≡ some e)
                × Linked (update (update s.qnext i none) e (some i)) s.idequeue (q ++ i ∷ [])))
        → Goal o
    by_end o (inl (e, n)) = subst Goal (sym n) (
        let t : (i == i) ≡ true = ground arith in
        rw (t, e)
          (
            record s {
              qnext = update s.qnext i none;
              idequeue = some i;
              sent = commands (s.bufs i) ∷ s.sent;
            },
            refl,
            record {
              linked = (refl, update_self s.qnext i none);
              apart = (refl, tt);
              started = (s.sent, refl);
              waiting = λ j m.
                  let q : i ≡ j = ground arith in subst (λ j. is_done (s.bufs j) ≡ false) q d;
            },
            refl,
            refl,
          ))
    by_end o (inr (e, n, k)) = subst Goal (sym n) (behind q v m k)
      where
        behind :
            (q : List ℕ)
            → IsSound s q
            → member i q ≡ false
            → Linked (update (update s.qnext i none) e (some i)) s.idequeue (q ++ i ∷ [])
            → (s' : Ide) × ((if is_first i s.idequeue
                  then idestart
                      (some i)
                      (record s { qnext = update (update s.qnext i none) e (some i) })
                  else ok (record s { qnext = update (update s.qnext i none) e (some i) }))
                ≡ ok s')
              × IsSound s' (q ++ i ∷ [])
              × (s'.bufs ≡ s.bufs)
              × (s'.havedisk1 ≡ s.havedisk1)
        behind [] v m (k, _) = absurd (let z = sym v.linked ∙ k in cc)
        behind (x ∷ l) v m k =
            let y : is_first i s.idequeue ≡ false = ap (is_first i) v.linked.0 ∙ ground arith in
            rw y (
              record s { qnext = update (update s.qnext i none) e (some i) },
              refl,
              record {
                linked = k;
                apart = Apart-snoc (x ∷ l) i v.apart m;
                started = v.started;
                waiting = λ j m. old_or_new j (sym (member-snoc j (x ∷ l) i) ∙ m);
              },
              refl,
              refl,
            )
          where
            old_or_new :
                (j : ℕ) → (member j (x ∷ l) || (j == i)) ≡ true → is_done (s.bufs j) ≡ false
            old_or_new j m = elim (Bool-cases (j == i)) [
              | inl e ↦ let q : i ≡ j = ground arith in subst (λ j. is_done (s.bufs j) ≡ false) q d
              | inr e ↦ v.waiting j (ground (arith, m))
            ]
