-- ===== src/Peer/Queue.antt =====
-- The packet queue of a peer: its bound, and what comes out of it.
use mathlib.Core.List.{reverse, reverse-cons}
use maiccu.Base.{
  ℕ, ◌+◌, ◌-◌, ◌≤◌, true, false, List, [], ◌∷◌, ◌++◌, ◌≡◌, ◌⊎◌, inr, refl, sym, ap, ◌∙◌, arith,
  length, append_assoc,
}
use maiccu.Effect.{Effect, sent, delivered}
use maiccu.Peer.{
  Peer, Queued, max_queue_bytes, peer_init, peer_queue, enqueue_in, enqueue_out, queue_yield,
  emit_one, queue_emit,
}

unfoldable pub total_bytes : List Queued → ℕ
total_bytes [] = 0
total_bytes (q ∷ qs) = length q.bytes + total_bytes qs

-- What is queued and what is left make up the limit of 1280 bytes.
abbrev pub IsBounded : Peer → Type 0
IsBounded p = total_bytes p.queue + p.queue_left ≡ max_queue_bytes

-- Every operation on the queue of a peer that keeps to the limit keeps to it: a new peer starts so,
-- emptying the queue frees its room, and a packet is queued or, if it does not fit, leaves the peer
-- as it is.
pub queue_IsBounded :
    (p : Peer) (bytes : List ℕ) (ip port : ℕ)
    → IsBounded p
    → IsBounded (peer_init p)
      × IsBounded (queue_yield p).1
      × IsBounded (enqueue_in p bytes ip port)
      × IsBounded (enqueue_out p bytes)
      × ((enqueue_out p bytes ≡ p) ⊎ (length bytes ≤ p.queue_left))
unfolding total_bytes peer_init queue_yield enqueue_in enqueue_out
queue_IsBounded p bytes ip port h = ground (arith, h)

-- An effect that the peer at `ip` and `port` may cause.
abbrev pub IsFor : ℕ → ℕ → List Queued → Effect → Type 0
IsFor ip port [] e = ⊥
IsFor ip port (q ∷ qs) e =
    ((q.incoming ≡ false) × (e ≡ sent ip port q.bytes))
    ⊎ ((q.incoming ≡ true) × (q.ipv4 ≡ ip) × (q.port ≡ port) × (e ≡ delivered q.bytes))
    ⊎ IsFor ip port qs e

abbrev pub All {ℓ} : {A : Type ℓ} → (A → Type 0) → List A → Type 0
All P [] = Unit {0}
All P (x ∷ xs) = P x × All P xs

All-mono {ℓ} :
    {A : Type ℓ} (P Q : A → Type 0) (xs : List A) → ((x : A) → P x → Q x) → All P xs → All Q xs
All-mono P Q [] f h = tt
All-mono P Q (x ∷ xs) f h = (f x h.0, All-mono P Q xs f h.1)

emit_one-IsFor :
    (q : Queued) (qs : List Queued) (ip port : ℕ)
    → All (IsFor ip port (q ∷ qs)) (emit_one q ip port)
unfolding emit_one
emit_one-IsFor q qs ip port = ground arith

All-append {ℓ} :
    {A : Type ℓ} (P : A → Type 0) (xs ys : List A) → All P xs → All P ys → All P (xs ++ ys)
All-append P [] ys h k = k
All-append P (x ∷ xs) ys h k = (h.0, All-append P xs ys h.1 k)

-- Whatever comes out of a queue is a queued packet: an outgoing one is sent to the mapping of the
-- peer, and an incoming one is delivered only if it came from that very address and port.
queue_emit-IsFor : (qs : List Queued) (ip port : ℕ) → All (IsFor ip port qs) (queue_emit qs ip port)
unfolding queue_emit
queue_emit-IsFor [] ip port = tt
queue_emit-IsFor (q ∷ qs) ip port =
    All-append (IsFor ip port (q ∷ qs)) (emit_one q ip port) (queue_emit qs ip port)
      (emit_one-IsFor q qs ip port)
      (All-mono (IsFor ip port qs) (IsFor ip port (q ∷ qs)) (queue_emit qs ip port)
        (λ e h. inr (inr h)) (queue_emit-IsFor qs ip port))

-- A run of arrivals at the queue, oldest first.
unfoldable pub enqueue_all : Peer → List Queued → Peer
enqueue_all p [] = p
enqueue_all p (q ∷ qs) = enqueue_all (peer_queue p q.bytes q.ipv4 q.port q.incoming) qs

peer_queue-fits :
    (p : Peer) (q : Queued)
    → length q.bytes ≤ p.queue_left
    → ((peer_queue p q.bytes q.ipv4 q.port q.incoming).queue ≡ q ∷ p.queue)
      × ((peer_queue p q.bytes q.ipv4 q.port q.incoming).queue_left ≡ p.queue_left - length q.bytes)
unfolding peer_queue
peer_queue-fits p q h = ground arith

queue_emit-append :
    (xs ys : List Queued) (ip port : ℕ)
    → queue_emit (xs ++ ys) ip port ≡ queue_emit xs ip port ++ queue_emit ys ip port
unfolding queue_emit
queue_emit-append [] ys ip port = refl
queue_emit-append (x ∷ xs) ys ip port =
    ap (◌++◌ (emit_one x ip port)) (queue_emit-append xs ys ip port)
    ∙ sym (append_assoc (emit_one x ip port) _ _)

enqueue_all-queue :
    (p : Peer) (qs : List Queued)
    → total_bytes qs ≤ p.queue_left
    → (enqueue_all p qs).queue ≡ reverse qs ++ p.queue
unfolding enqueue_all total_bytes
enqueue_all-queue p [] h = refl
enqueue_all-queue p (q ∷ qs) h =
    let f = peer_queue-fits p q (omega arith) in
    enqueue_all-queue (peer_queue p q.bytes q.ipv4 q.port q.incoming) qs (omega (arith, f.1))
    ∙ rw (f.0, reverse-cons q qs) (sym (append_assoc (reverse qs) (q ∷ []) p.queue))

-- Packets that fit in the room left come out in the reverse order of their arrival, and before
-- those that were queued already.
queue_emit-newest_first :
    (p : Peer) (qs : List Queued) (ip port : ℕ)
    → total_bytes qs ≤ p.queue_left
    → queue_emit (queue_yield (enqueue_all p qs)).0 ip port
      ≡ queue_emit (reverse qs) ip port ++ queue_emit p.queue ip port
unfolding queue_yield
queue_emit-newest_first p qs ip port h =
    rw (enqueue_all-queue p qs h) (queue_emit-append (reverse qs) p.queue ip port)
