-- ===== src/Rating/Batch/Threads.antt =====
-- The workers of a batch, one after the other, rate as one thread does.
use rate_engine.Base.{
  Bool, ◌>>=◌, >>=_assoc, >>=_congr, sym, ◌∙◌, ap, ◌+◌, ℕ, zero, suc, ◌+◌, ◌<◌, ◌≡◌, refl, sym, ap,
  ◌∙◌, List, [], ◌∷◌, ◌++◌, Option, some, arith, ltb_ℤ, pos, if◌then◌else◌, Text, length, get_elem?,
}
use rate_engine.CdrMediator.Cdr.{Cdr}
use rate_engine.Rating.Data.{Call}
use rate_engine.Rating.World.{Host, World}
use rate_engine.Rating.Ledger.{Log, Books}
use rate_engine.Rating.Workers.{worker_indices, range, shares, shares-all}
use rate_engine.Rating.Batch.{work_on, Tally, rate_cdr, single_loop, rt_worker_func, threads_loop}

get_elem?-length {ℓ} :
    {A : Type ℓ} (xs : List A) (y : A) (ys : List A) → get_elem? (xs ++ y ∷ ys) (length xs) ≡ some y
get_elem?-length [] y ys = refl
get_elem?-length (x ∷ xs) y ys = get_elem?-length xs y ys

append_assoc {ℓ} :
    {A : Type ℓ} (xs : List A) (y : A) (ys : List A) → (xs ++ y ∷ []) ++ ys ≡ xs ++ y ∷ ys
append_assoc [] y ys = refl
append_assoc (x ∷ xs) y ys = ap (λ zs. x ∷ zs) (append_assoc xs y ys)

length-snoc {ℓ} : {A : Type ℓ} (xs : List A) (y : A) → length (xs ++ y ∷ []) ≡ suc (length xs)
length-snoc [] y = refl
length-snoc (x ∷ xs) y = ap suc (length-snoc xs y)

module _ (books : Books) (host : Host Log) (epoch : Text → ℕ) (leg : ℕ) (cdrs : List Cdr) where
  abbrev run : List ℕ → Tally → Option Tally
  run indices s = rt_worker_func books host epoch leg cdrs indices s

  abbrev visit : ℕ → Tally → Option Tally
  visit x s = get_elem? cdrs x >>= λ cdr. work_on books host epoch leg cdr s

  run-step : (x : ℕ) (xs : List ℕ) (s : Tally) → run (x ∷ xs) s ≡ (visit x s >>= run xs)
  unfolding rt_worker_func
  run-step x xs s = sym (>>=_assoc (get_elem? cdrs x) _ _)

  run-append : (xs ys : List ℕ) (s : Tally) → run (xs ++ ys) s ≡ (run xs s >>= run ys)
  unfolding rt_worker_func ◌>>=◌
  run-append [] ys s = refl
  run-append (x ∷ xs) ys s =
      run-step x (xs ++ ys) s
      ∙ >>=_congr (visit x s) (run-append xs ys)
      ∙ sym (>>=_assoc (visit x s) (run xs) (run ys))
      ∙ sym (ap (λ o. o >>= run ys) (run-step x xs s))

  -- The result without the counter of failures, after `cc` calls were rated before.
  abbrev counted : ℕ → Tally → Option (World Log × ℕ)
  counted cc (w, ok, err) = some (w, cc + ok)

  abbrev is_rated : Call → Bool
  is_rated pre = ltb_ℤ (pos 0) pre.rating_id

  -- What follows the first record of a worker.
  abbrev after :
      List ℕ → ℕ → ℕ → (Tally → Option (World Log × ℕ)) → World Log × Call → Option (World Log × ℕ)
  after xs ok err f (w, pre) =
      run xs (w, if is_rated pre then ok + 1 else ok, if is_rated pre then err else err + 1) >>= f

  run-turn :
      (x : ℕ) (xs : List ℕ) (w : World Log) (ok err : ℕ) (f : Tally → Option (World Log × ℕ))
      → (run (x ∷ xs) (w, ok, err) >>= f)
        ≡ (get_elem? cdrs x >>= λ cdr. rate_cdr books host epoch leg w cdr >>= after xs ok err f)
  unfolding ◌>>=◌ rt_worker_func work_on
  run-turn x xs w ok err f =
      >>=_assoc (get_elem? cdrs x) _ f
      ∙ >>=_congr (get_elem? cdrs x) (λ cdr.
        >>=_assoc (work_on books host epoch leg cdr (w, ok, err)) (run xs) f
        ∙ >>=_assoc (rate_cdr books host epoch leg w cdr) _ _)

  run-counted :
      (xs : List ℕ) (w : World Log) (a b c d err err0 : ℕ)
      → a + b ≡ c + d
      → (run xs (w, b, err) >>= counted a) ≡ (run xs (w, d, err0) >>= counted c)
  unfolding ◌>>=◌ rt_worker_func
  run-counted [] w a b c d err err0 e = ap (λ n. some (w, n)) e
  run-counted (x ∷ xs) w a b c d err err0 e =
      run-turn x xs w b err (counted a)
      ∙ >>=_congr (get_elem? cdrs x) (λ cdr.
        >>=_congr (rate_cdr books host epoch leg w cdr) (λ (w1, pre).
          run-counted xs w1 a (if is_rated pre then b + 1 else b) c
            (if is_rated pre then d + 1 else d) (if is_rated pre then err else err + 1)
            (if is_rated pre then err0 else err0 + 1) (ground (arith, e))))
      ∙ sym (run-turn x xs w d err0 (counted c))

  -- A worker over the records from a position on does what one thread does.
  run-single_loop :
      (seen later : List Cdr) (w : World Log) (ok err n : ℕ)
      → seen ++ later ≡ cdrs
      → n ≡ length seen
      → (run (range n (length later)) (w, ok, err) >>= counted 0)
        ≡ single_loop books host epoch leg later w ok
  unfolding single_loop range ◌>>=◌ rt_worker_func
  run-single_loop seen [] w ok err n e h = ap (λ n. some (w, n)) (omega arith)
  run-single_loop seen (cdr ∷ later) w ok err n e h =
      let here : get_elem? cdrs n ≡ some cdr = rw (sym e, h) (get_elem?-length seen cdr later) in
      run-turn n (range (suc n) (length later)) w ok err (counted 0)
      ∙ ap
          (λ o. o >>= λ cdr.
            rate_cdr books host epoch leg w cdr
            >>= after (range (suc n) (length later)) ok err (counted 0))
          here
      ∙ >>=_congr (rate_cdr books host epoch leg w cdr) (λ (w1, pre).
        run-single_loop (seen ++ cdr ∷ []) later w1 (if is_rated pre then ok + 1 else ok)
          (if is_rated pre then err else err + 1) (suc n) (append_assoc seen cdr later ∙ e)
          (ap suc h ∙ sym (length-snoc seen cdr)))

  threads_loop-run :
      (n t : ℕ) (w : World Log)
      → threads_loop books host epoch leg cdrs n t w
        ≡ (run (shares (length cdrs) n t) (w, 0, 0) >>= counted 0)
  unfolding threads_loop shares ◌>>=◌ rt_worker_func
  threads_loop-run n zero w = refl
  threads_loop-run n (suc t) w =
      let mine = worker_indices (length cdrs) n t in
      let others = shares (length cdrs) n t in
      ap (λ o. o >>= λ (w1, cc). run mine (w1, 0, 0) >>= counted cc) (threads_loop-run n t w)
      ∙ >>=_assoc (run others (w, 0, 0)) (counted 0) _
      ∙ >>=_congr (run others (w, 0, 0))
          (λ (w1, ok, err). run-counted mine w1 (0 + ok) 0 0 ok 0 err (omega arith))
      ∙ sym (>>=_assoc (run others (w, 0, 0)) (run mine) (counted 0))
      ∙ sym (ap (λ o. o >>= counted 0) (run-append others mine (w, 0, 0)))

  -- With at least one thread, the workers of a batch, each run to its end before the next one
  -- starts, leave the database and the count of rated records that one thread leaves, or die as it
  -- does.
  pub threads_loop-single_loop :
      (n : ℕ) (w : World Log)
      → 0 < n
      → threads_loop books host epoch leg cdrs n n w ≡ single_loop books host epoch leg cdrs w 0
  threads_loop-single_loop n w h =
      threads_loop-run n n w
      ∙ ap (λ xs. run xs (w, 0, 0) >>= counted 0) (shares-all (length cdrs) n h)
      ∙ run-single_loop [] cdrs w 0 0 0 refl refl
