-- ===== src/Now/Transport/Confirming.antt =====
-- Which promise an event of the ESP-NOW driver settles.
use esp_iot_framework.Prelude.{
  ℕ, zero, suc, ◌+◌, ◌≤◌, ◌≡◌, refl, sym, ap, ap₂, subst, ◌∙◌, Bool, true, false, List, [], ◌∷◌,
  ◌++◌, map, arith, ◌==◌, length, length-append, Bytes, append-nil, append_assoc, insert,
}
use esp_iot_framework.Async.World.{blank_promise, World, promise_at}
use esp_iot_framework.Async.Promise.{create}
use esp_iot_framework.Async.Promise.Effects.{Works}
use esp_iot_framework.Async.Promise.Aggregates.{get_or-snoc_default}
use esp_iot_framework.Now.Transport.{Answers, AsyncEspNow, waiting, send, on_sent}
use esp_iot_framework.Now.Transport.Outcomes.{
  NotIn, Distinct, verdicts, waiting-insert, fresh_from, fresh_from-Distinct, length-fresh_from,
  get_or-past, outcomes, AllPending, settle, Settles, settle-Settles,
}

module _ {S : Type 0} where
  -- The driver's events about one peer, one after the other.
  pub sent_events : AsyncEspNow → World S → ℕ → List Bool → AsyncEspNow × World S
  sent_events t w mac [] = (t, w)
  sent_events t w mac (s ∷ ss) = let (t', w') = on_sent t w mac s in sent_events t' w' mac ss

  on_sent_front :
      (t : AsyncEspNow) (w : World S) (mac p : ℕ) (ps : List ℕ) (s : Bool)
      → waiting t mac ≡ p ∷ ps
      → on_sent t w mac s ≡ (record t { send_order = insert mac ps t.send_order }, settle s w p)
  unfolding on_sent
  on_sent_front t w mac p ps s e = rw (e, on_sent) refl

  AllPending-kept :
      (ps : List ℕ) (w w' : World S) (p : ℕ) (s : Bool)
      → Settles w w' p s
      → NotIn p ps
      → AllPending w ps
      → AllPending w' ps
  AllPending-kept [] w w' p s e n a = tt
  AllPending-kept (q ∷ qs) w w' p s e n a =
      let other : (p == q) ≡ false = ground (arith, n.0) in
      ((rw e.same_length a.0.0, rw (e.others q other) a.0.1), AllPending-kept qs w w' p s e n.1 a.1)

  -- What the events come to when `ps` wait and as many events come.
  record Confirms (t' : AsyncEspNow) (w w' : World S) (mac : ℕ) (ps : List ℕ) (ss : List Bool)
      : Type 0 where
    works : Works w'
    settled : outcomes w' ps ≡ verdicts ss
    left : waiting t' mac ≡ []
    others : (q : ℕ) → NotIn q ps → promise_at w' q ≡ promise_at w q

  sent_events-Confirms :
      (ps : List ℕ) (ss : List Bool) (t : AsyncEspNow) (w : World S) (mac : ℕ)
      → Works w
      → waiting t mac ≡ ps
      → length ss ≡ length ps
      → AllPending w ps
      → Distinct ps
      → Confirms (sent_events t w mac ss).0 w (sent_events t w mac ss).1 mac ps ss
  unfolding sent_events
  sent_events-Confirms [] [] t w mac h e l pending distinct = record {
    works = h;
    settled = refl;
    left = e;
    others = λ q n. refl;
  }
  sent_events-Confirms [] (s ∷ ss) t w mac h e l pending distinct = absurd (omega arith)
  sent_events-Confirms (p ∷ ps) [] t w mac h e l pending distinct = absurd (omega arith)
  sent_events-Confirms (p ∷ ps) (s ∷ ss) t w mac h e l pending distinct =
      let t' = record t { send_order = insert mac ps t.send_order } in
      let w' = settle s w p in
      let one = settle-Settles s w p h pending.0.0 pending.0.1 in
      let rest =
        sent_events-Confirms ps ss t' w' mac one.works (waiting-insert t mac ps) (omega arith)
          (AllPending-kept ps w w' p s one distinct.0 pending.1) distinct.1 in
      let result = sent_events t' w' mac ss in
      let same : sent_events t w mac (s ∷ ss) ≡ result =
        ap (λ r. sent_events r.0 r.1 mac ss) (on_sent_front t w mac p ps s e) in
      subst (λ r. Confirms r.0 w r.1 mac (p ∷ ps) (s ∷ ss)) (sym same)
        (record {
          works = rest.works;
          settled = ap₂ (λ o os. o ∷ os) (rw (rest.others p distinct.0) one.settled) rest.settled;
          left = rest.left;
          others = λ q n. rest.others q n.1 ∙ one.others q n.0;
        })

  -- Packets are handed to `send` for one peer, one after the other.
  pub send_each : Answers → AsyncEspNow → World S → ℕ → List Bytes → AsyncEspNow × World S × List ℕ
  send_each a t w mac [] = (t, w, [])
  send_each a t w mac (b ∷ bs) =
      let (t', w', p) = send a t w mac b in
      let (t'', w'', ps) = send_each a t' w' mac bs in (t'', w'', p ∷ ps)

  send_accepted :
      (a : Answers) (t : AsyncEspNow) (w : World S) (mac : ℕ) (b : Bytes)
      → t.initialized ≡ true
      → a.peer_exists ≡ true
      → a.sends ≡ true
      → send a t w mac b ≡ (
        record t {
          send_order = insert mac (waiting t mac ++ length w.promises ∷ []) t.send_order;
          sent = t.sent ++ (mac, b) ∷ [];
        },
        record w { promises = w.promises ++ blank_promise ∷ [] },
        length w.promises,
      )
  unfolding send create
  send_accepted a t w mac b ready known accepted = ground arith

  -- What the packets that the driver took lead to.
  record Sends (t t' : AsyncEspNow) (w w' : World S) (mac : ℕ) (bs : List Bytes) (ps : List ℕ)
      : Type 0 where
    addresses : ps ≡ fresh_from (length w.promises) (length bs)
    works : Works w'
    longer : length w'.promises ≡ length w.promises + length bs
    same : (j : ℕ) → promise_at w' j ≡ promise_at w j
    queued : waiting t' mac ≡ waiting t mac ++ ps
    given : t'.sent ≡ t.sent ++ map (λ b. (mac, b)) bs

  send_each-Sends :
      (bs : List Bytes) (a : Answers) (t : AsyncEspNow) (w : World S) (mac : ℕ)
      → Works w
      → t.initialized ≡ true
      → a.peer_exists ≡ true
      → a.sends ≡ true
      → Sends t
          (send_each a t w mac bs).0
          w
          (send_each a t w mac bs).1
          mac
          bs
          (send_each a t w mac bs).2
  unfolding send_each
  send_each-Sends [] a t w mac h ready known accepted = record {
    addresses = refl;
    works = h;
    longer = omega arith;
    same = λ j. refl;
    queued = sym (append-nil (waiting t mac));
    given = sym (append-nil t.sent);
  }
  send_each-Sends (b ∷ bs) a t w mac h ready known accepted =
      let n = length w.promises in
      let t' = record t {
        send_order = insert mac (waiting t mac ++ n ∷ []) t.send_order;
        sent = t.sent ++ (mac, b) ∷ [];
      } in
      let w' = record w { promises = w.promises ++ blank_promise ∷ [] } in
      let ih =
        send_each-Sends bs a t' w' mac (record { begun = h.begun; delivers = h.delivers }) ready
          known accepted in
      let rest = send_each a t' w' mac bs in
      let one_more : length w'.promises ≡ suc n =
        length-append w.promises (blank_promise ∷ []) ∙ omega arith in
      subst
        (λ r.
          Sends t (send_each a r.0 r.1 mac bs).0 w (send_each a r.0 r.1 mac bs).1 mac (b ∷ bs)
            (r.2 ∷ (send_each a r.0 r.1 mac bs).2))
        (sym (send_accepted a t w mac b ready known accepted))
        (record {
          addresses =
              ap (λ ps. n ∷ ps) (ih.addresses ∙ ap (λ k. fresh_from k (length bs)) one_more);
          works = ih.works;
          longer = ih.longer ∙ omega (arith, one_more);
          same = λ j. ih.same j ∙ get_or-snoc_default w.promises blank_promise j;
          queued =
              ih.queued
              ∙ ap (λ ps. ps ++ rest.2) (waiting-insert t mac (waiting t mac ++ n ∷ []))
              ∙ append_assoc (waiting t mac) (n ∷ []) rest.2;
          given = ih.given ∙ append_assoc t.sent ((mac, b) ∷ []) (map (λ b. (mac, b)) bs);
        })

  AllPending-fresh :
      (m n : ℕ) (w w' : World S)
      → length w.promises ≤ n
      → n + m ≤ length w'.promises
      → ((j : ℕ) → promise_at w' j ≡ promise_at w j)
      → AllPending w' (fresh_from n m)
  AllPending-fresh zero n w w' h k same = tt
  AllPending-fresh (suc m) n w w' h k same =
      let blank : promise_at w' n ≡ blank_promise =
        same n ∙ get_or-past w.promises blank_promise n h in
      (
        (omega arith, rw blank refl),
        AllPending-fresh m (suc n) w w' (omega arith) (omega arith) same,
      )

  -- The transport has begun and knows the peer, for which no packet waits, the dispatcher works, and the
  -- driver takes every packet. The packets go to it in order. If as many events about the peer follow,
  -- the promise of each packet has succeeded or failed as the event in its place says, and none waits.
  pub sent_events-send_each :
      (a : Answers) (t : AsyncEspNow) (w : World S) (mac : ℕ) (bs : List Bytes) (ss : List Bool)
      → Works w
      → t.initialized ≡ true
      → a.peer_exists ≡ true
      → a.sends ≡ true
      → waiting t mac ≡ []
      → length ss ≡ length bs
      → let (t', w', ps) = send_each a t w mac bs in
        let (t'', w'') = sent_events t' w' mac ss in
        (t'.sent ≡ t.sent ++ map (λ b. (mac, b)) bs)
        × (outcomes w'' ps ≡ verdicts ss)
        × (waiting t'' mac ≡ [])
  sent_events-send_each a t w mac bs ss h ready known accepted empty l =
      let (t', w', ps) = send_each a t w mac bs in
      let s = send_each-Sends bs a t w mac h ready known accepted in
      let n = length w.promises in
      let queue : waiting t' mac ≡ fresh_from n (length bs) = s.queued ∙ rw empty s.addresses in
      let c =
        sent_events-Confirms (fresh_from n (length bs)) ss t' w' mac s.works queue
          (l ∙ sym (length-fresh_from (length bs) n))
          (AllPending-fresh (length bs) n w w' (omega arith) (omega (arith, s.longer)) s.same)
          (fresh_from-Distinct (length bs) n) in
      (s.given, ap (λ qs. outcomes (sent_events t' w' mac ss).1 qs) s.addresses ∙ c.settled, c.left)
