-- ===== src/Async/Promise/Effects.antt =====
-- What telling the callbacks of a promise changes.
use esp_iot_framework.Prelude.{
  ℕ, zero, suc, ◌<◌, ◌≡◌, refl, ap, subst, ◌∙◌, inl, inr, Bool, true, ◌&&◌, List, [], ◌∷◌, ◌++◌,
  arith, ltb, ◌==◌, if◌then◌else◌, ==_iff, ==_refl, Bool-cases, length, get_or, set, length-set,
  append-nil, append_assoc,
}
use esp_iot_framework.Async.Dispatcher.{dispatch}
use esp_iot_framework.Async.World.{
  Callback, Promise, blank_promise, Task, World, promise_at, put_promise, notify,
}
use esp_iot_framework.Async.Promise.{notify_all, on_promise_finished}

pub get_or-set {ℓ} :
    {A : Type ℓ} (xs : List A) (i j : ℕ) (v d : A)
    → get_or (set xs i v) j d ≡ (if i == j && ltb i (length xs) then v else get_or xs j d)
get_or-set [] i j v d = ground arith
get_or-set (x ∷ xs) zero zero v d = ground arith
get_or-set (x ∷ xs) zero (suc j) v d = ground arith
get_or-set (x ∷ xs) (suc i) zero v d = ground arith
get_or-set (x ∷ xs) (suc i) (suc j) v d = get_or-set xs i j v d ∙ ground arith

abbrev callbacks_for : ℕ → List Task → List Callback
callbacks_for p [] = []
callbacks_for p (t ∷ ts) =
    if t.promise == p then t.callback ∷ callbacks_for p ts else callbacks_for p ts

callbacks_for-snoc :
    (p : ℕ) (ts : List Task) (t : Task)
    → callbacks_for p (ts ++ t ∷ [])
      ≡ callbacks_for p ts ++ (if t.promise == p then t.callback ∷ [] else [])
callbacks_for-snoc p [] t = ground arith
callbacks_for-snoc p (x ∷ ts) t = ground (arith, callbacks_for-snoc p ts t)

-- What becomes of a promise that is pending.
abbrev pub settled_with : Bool → Promise → Promise
settled_with success q = record q { finished = true; success = success; on_finished_callbacks = [] }

module _ {S : Type 0} where
  -- The dispatcher takes what it is given.
  pub record Works (w : World S) : Type 0 where
    pub begun : w.dispatcher.initialized ≡ true
    pub delivers : w.kernel.sent ≡ true

  -- The callbacks of a promise that are to be called.
  abbrev pub told : World S → ℕ → List Callback
  told w p = callbacks_for p w.dispatcher.dispatched

  -- The dispatcher's queue grew, and no promise changed.
  record Notified (w w' : World S) (p : ℕ) (cs : List Callback) : Type 0 where
    pub works : Works w'
    pub kept : w'.promises ≡ w.promises
    pub tells : (q : ℕ) → told w' q ≡ told w q ++ (if p == q then cs else [])

  notify-Notified :
      (w : World S) (p : ℕ) (c : Callback)
      → Works w
      → Notified w (notify w (record { promise = p; callback = c })) p (c ∷ [])
  unfolding notify dispatch
  notify-Notified w p c h =
      let t : Task = record { promise = p; callback = c } in
      record {
        works = ground arith;
        kept = ground arith;
        tells = λ q. rw (h.begun, h.delivers) (callbacks_for-snoc q w.dispatcher.dispatched t);
      }

  notify_all-Notified :
      (cs : List Callback) (w : World S) (p : ℕ) → Works w → Notified w (notify_all w p cs) p cs
  unfolding notify_all
  notify_all-Notified [] w p h = record {
    works = h;
    kept = refl;
    tells = λ q. ground (arith, append-nil (told w q));
  }
  notify_all-Notified (c ∷ cs) w p h =
      let n = notify-Notified w p c h in
      let r = notify_all-Notified cs (notify w (record { promise = p; callback = c })) p n.works in
      record {
        works = r.works;
        kept = r.kept ∙ n.kept;
        tells = λ q.
            r.tells q
            ∙ rw (n.tells q) (elim (Bool-cases (p == q)) [
              | inl same ↦ rw same (append_assoc (told w q) (c ∷ []) cs)
              | inr other ↦ rw other (append-nil (told w q ++ []))
            ]);
      }

  -- Of all promises only `p` changed, to `changed`, and its callbacks `cs` are to be called.
  pub record Effect (w w' : World S) (p : ℕ) (changed : Promise) (cs : List Callback) : Type 0 where
    pub works : Works w'
    pub same_length : length w'.promises ≡ length w.promises
    pub at : (j : ℕ) → promise_at w' j ≡ (if p == j then changed else promise_at w j)
    pub tells : (q : ℕ) → told w' q ≡ told w q ++ (if p == q then cs else [])

  at-put_promise :
      (w : World S) (p : ℕ) (q : Promise)
      → p < length w.promises
      → (j : ℕ) → promise_at (put_promise w p q) j ≡ (if p == j then q else promise_at w j)
  at-put_promise w p q h j = get_or-set w.promises p j q blank_promise ∙ ground arith

  pub put_promise-Effect :
      (w : World S) (p : ℕ) (q : Promise)
      → Works w
      → p < length w.promises
      → Effect w (put_promise w p q) p q []
  put_promise-Effect w p q h inside = record {
    works = record { begun = h.begun; delivers = h.delivers };
    same_length = length-set w.promises p q;
    at = at-put_promise w p q inside;
    tells = λ j. ground (arith, append-nil (told w j));
  }

  pub Effect-trans :
      (w w' w'' : World S) (p : ℕ) (q q' : Promise) (cs ds : List Callback)
      → Effect w w' p q cs
      → Effect w' w'' p q' ds
      → Effect w w'' p q' (cs ++ ds)
  Effect-trans w w' w'' p q q' cs ds e f = record {
    works = f.works;
    same_length = f.same_length ∙ e.same_length;
    at = λ j. ground (arith, f.at j, e.at j);
    tells = λ j.
        f.tells j
        ∙ rw (e.tells j) (elim (Bool-cases (p == j)) [
          | inl same ↦ rw same (append_assoc (told w j) cs ds)
          | inr other ↦ rw other (append-nil (told w j ++ []))
        ]);
  }

  pub notify_all-Effect :
      (w : World S) (p : ℕ) (cs : List Callback)
      → Works w
      → Effect w (notify_all w p cs) p (promise_at w p) cs
  notify_all-Effect w p cs h =
      let n = notify_all-Notified cs w p h in
      record {
        works = n.works;
        same_length = ap length n.kept;
        at = λ j. rw n.kept (elim (Bool-cases (p == j)) [
          | inl same ↦ rw (same, (==_iff p j).0 same) refl
          | inr other ↦ rw other refl
        ]);
        tells = n.tells;
      }

  pub on_promise_finished-Effect :
      (w : World S) (p : ℕ)
      → Works w
      → p < length w.promises
      → Effect w
          (on_promise_finished w p)
          p
          (record (promise_at w p) { on_finished_callbacks = [] })
          (promise_at w p).on_finished_callbacks
  unfolding on_promise_finished
  on_promise_finished-Effect w p h inside =
      let cs = (promise_at w p).on_finished_callbacks in
      let w' = notify_all w p cs in
      let n = notify_all-Effect w p cs h in
      let same : promise_at w' p ≡ promise_at w p = n.at p ∙ rw (==_refl p) refl in
      let cleared = record (promise_at w' p) { on_finished_callbacks = [] } in
      let put = put_promise-Effect w' p cleared n.works (rw n.same_length inside) in
      let e = Effect-trans w w' (put_promise w' p cleared) p (promise_at w p) cleared cs [] n put in
      subst
        (λ q. Effect w (put_promise w' p cleared) p (record q { on_finished_callbacks = [] }) cs)
        same (subst (λ ds. Effect w (put_promise w' p cleared) p cleared ds) (append-nil cs) e)
