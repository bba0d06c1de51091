-- ===== src/MapReduce/MasterLaws.antt =====
-- mit6.824/src/mapreduce/master.go: every registration reaches the scheduler, and just once.
use mathlib.Core.List.{append_assoc, append-nil}
use distribute_system_lab.Prelude.{
  ℕ, zero, suc, ◌+◌, ◌≡◌, ◌≤◌, refl, sym, ap, ◌∙◌, inl, inr, Bool, List, [], ◌∷◌, ◌++◌, none, some,
  >>=-eq-some, Option-cases, arith, length, length-append, get_elem?, drop, drop-eq-cons,
  lt_of_get_elem?, le_of_get_elem?-none, count,
}
use distribute_system_lab.Prelude.Text.{Str}
use distribute_system_lab.MapReduce.Master.{
  new_master, register, forward, MasterEvent, register_call, forward_round, received, Forwarding,
  take_sending, master_step, master_run,
}

-- The workers that register, in their order.
abbrev pub registered_by : List MasterEvent → List Str
registered_by [] = []
registered_by (register_call w ∷ es) = w ∷ registered_by es
registered_by (forward_round ∷ es) = registered_by es
registered_by (received k ∷ es) = registered_by es

drop-append_left : (n : ℕ) (xs ys : List Str) → n ≤ length xs → drop n (xs ++ ys) ≡ drop n xs ++ ys
drop-append_left zero xs ys h = refl
drop-append_left (suc n) [] ys h = absurd (omega arith)
drop-append_left (suc n) (x ∷ xs) ys h = drop-append_left n xs ys (omega arith)

count-append : (p : Str → Bool) (xs ys : List Str) → count p (xs ++ ys) ≡ count p xs + count p ys
count-append p [] ys = omega arith
count-append p (x ∷ xs) ys = ground (arith, count-append p xs ys)

count-take_sending :
    (p : Str → Bool) (k : ℕ) (ws : List Str) {w : Str} {rest : List Str}
    → take_sending k ws ≡ some (w, rest)
    → count p ws ≡ count p (w ∷ rest)
unfolding take_sending
count-take_sending p k [] h = absurd (ground (arith, h))
count-take_sending p zero (v ∷ ws) h = ground (arith, h)
count-take_sending p (suc k) (v ∷ ws) {w} {rest} h =
    let ((x, others), e, q) = >>=-eq-some (take_sending k ws) _ h in
    let r = count-take_sending p k ws e in ground (arith, q, r)

-- Each registration is with the scheduler, waits to be sent, or stands at or behind `i`.
record Sent (f : Forwarding) : Type 0 where
  each :
      (p : Str → Bool)
      → count p f.sent + count p f.sending + count p (drop f.next f.master.workers)
        ≡ count p f.master.workers
  inside : f.next ≤ length f.master.workers

register-Sent :
    (f : Forwarding) (w : Str) → Sent f → Sent (record f { master = register f.master w })
unfolding register
register-Sent f w v = record {
  each = λ p. omega (
    arith,
    v.each p,
    ap (count p) (drop-append_left f.next f.master.workers (w ∷ []) v.inside),
    count-append p (drop f.next f.master.workers) (w ∷ []),
    count-append p f.master.workers (w ∷ []),
  );
  inside = omega (arith, v.inside, length-append f.master.workers (w ∷ []));
}

forwarded-Sent :
    (f : Forwarding) (w : Str)
    → get_elem? f.master.workers f.next ≡ some w
    → Sent f
    → Sent (record f { next = f.next + 1; sending = f.sending ++ w ∷ [] })
forwarded-Sent f w e v =
    let ws = f.master.workers in
    let rest : drop f.next ws ≡ w ∷ drop (f.next + 1) ws =
      drop-eq-cons f.next ws w e ∙ ap (λ k. w ∷ drop k ws) {x = suc f.next} (omega arith) in
    record {
      each = λ p. ground (arith, v.each p, ap (count p) rest, count-append p f.sending (w ∷ []));
      inside = omega (arith, lt_of_get_elem? ws f.next w e);
    }

received-Sent :
    (f : Forwarding) (k : ℕ) (w : Str) (rest : List Str)
    → take_sending k f.sending ≡ some (w, rest)
    → Sent f
    → Sent (record f { sending = rest; sent = f.sent ++ w ∷ [] })
received-Sent f k w rest e v = record {
  each = λ p.
      ground (arith, v.each p, count-take_sending p k f.sending e, count-append p f.sent (w ∷ []));
  inside = v.inside;
}

-- A step other than a registration keeps the workers.
master_step-Sent :
    (f : Forwarding) (e : MasterEvent)
    → Sent f
    → Sent (master_step f e)
      × ((master_step f e).master.workers ≡ f.master.workers ++ registered_by (e ∷ []))
unfolding master_step register forward
master_step-Sent f (register_call w) v = (register-Sent f w v, refl)
master_step-Sent f forward_round v = elim (Option-cases (get_elem? f.master.workers f.next)) [
  | inl e ↦ rw (e, master_step, forward) (v, sym (append-nil f.master.workers))
  | inr (w, e) ↦
      rw (e, master_step, forward) (forwarded-Sent f w e v, sym (append-nil f.master.workers))
]
master_step-Sent f (received k) v = elim (Option-cases (take_sending k f.sending)) [
  | inl e ↦ rw (e, master_step) (v, sym (append-nil f.master.workers))
  | inr ((w, rest), e) ↦
      rw (e, master_step) (received-Sent f k w rest e v, sym (append-nil f.master.workers))
]

registered_by_cons :
    (e : MasterEvent) (es : List MasterEvent)
    → registered_by (e ∷ es) ≡ registered_by (e ∷ []) ++ registered_by es
registered_by_cons (register_call w) es = refl
registered_by_cons forward_round es = refl
registered_by_cons (received k) es = refl

master_run-Sent :
    (f : Forwarding) (es : List MasterEvent)
    → Sent f
    → Sent (master_run f es)
      × ((master_run f es).master.workers ≡ f.master.workers ++ registered_by es)
unfolding master_run
master_run-Sent f [] v = (v, sym (append-nil f.master.workers))
master_run-Sent f (e ∷ es) v =
    let (v1, q1) = master_step-Sent f e v in
    let (v2, q2) = master_run-Sent (master_step f e) es v1 in
    (
      v2,
      q2
          ∙ ap (λ ws. ws ++ registered_by es) q1
          ∙ append_assoc f.master.workers (registered_by (e ∷ [])) (registered_by es)
          ∙ ap (λ ws. f.master.workers ++ ws) (sym (registered_by_cons e es)),
    )

-- However registrations, rounds of `forwardRegistrations` and receives of the scheduler mix, each
-- registration is just once among what the scheduler has received, what the goroutines wait to send
-- and what `forwardRegistrations` has not come to. When it has no more to send on and no goroutine
-- waits, the scheduler has received each registration just once, in some order.
pub forwards_all :
    (address : Str) (es : List MasterEvent)
    → let f =
        master_run (record { master = new_master address; next = 0; sending = []; sent = [] }) es in
      ((p : Str → Bool)
        → count p f.sent + count p f.sending + count p (drop f.next f.master.workers)
          ≡ count p (registered_by es))
      × (forward f.master f.next ≡ none
          → f.sending ≡ []
          → (p : Str → Bool) → count p f.sent ≡ count p (registered_by es))
unfolding new_master forward
forwards_all address es =
    let f0 : Forwarding = record {
      master = new_master address;
      next = 0;
      sending = [];
      sent = [];
    } in
    let (v, q) = master_run-Sent f0 es (record { each = λ p. omega arith; inside = omega arith }) in
    let f = master_run f0 es in
    (
      λ p. v.each p ∙ ap (count p) q,
      λ h idle p. elim (Option-cases (get_elem? f.master.workers f.next)) [
        | inl e ↦ omega (
          arith,
          v.each p,
          ap (count p) q,
          ap (count p) idle,
          ap (count p) (drop_all f.next f.master.workers (le_of_get_elem?-none _ _ e)),
        )
        | inr (w, e) ↦ absurd (ground (arith, e))
      ],
    )
  where
    drop_all : (n : ℕ) (xs : List Str) → length xs ≤ n → drop n xs ≡ []
    drop_all zero [] h = refl
    drop_all zero (x ∷ xs) h = absurd (omega arith)
    drop_all (suc n) [] h = refl
    drop_all (suc n) (x ∷ xs) h = drop_all n xs (omega arith)
