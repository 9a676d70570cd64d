-- ===== src/Gogoc/Rudp/Attempts.antt =====
-- gogoc/gogoc-tsp/src/net/net_rudp.c: when a message goes out, by the top of `sendloop`.
use maiccu.Base.{
  ℕ, ◌≡◌, ◌≢◌, ◌⊎◌, inl, inr, refl, true, false, not, ◌&&◌, List, ◌==◌, if◌then◌else◌, past,
  if_both,
}
use maiccu.Gogoc.Rudp.{
  Float, World, Engine, Attempt, gave_up, went, attempt, message, max_rtt, max_rt, deinit,
}

module _ (f : Float) where
  pub Attempt-cases :
      (a : Attempt f)
      → ((e : Engine f) × (a ≡ gave_up e))
        ⊎ ((e : Engine f) × (bytes : List ℕ) × (a ≡ went e bytes))
  Attempt-cases (gave_up e) = inl (e, refl)
  Attempt-cases (went e bytes) = inr (e, bytes, refl)

  gave_up-ne-went :
      {e e' : Engine f} {bytes : List ℕ} → ◌≢◌ {A = Attempt f} (gave_up e) (went e' bytes)
  gave_up-ne-went h = cc

  -- From the third time-out on the time between two messages grows.
  abbrev pub mark : Engine f → Engine f
  mark e = if e.retries == max_rtt then record e { apply_backoff = true } else e

  pub mark-retries : (e : Engine f) → (mark e).retries ≡ e.retries
  mark-retries e =
      if_both (λ (x : Engine f). x.retries ≡ e.retries) (e.retries == max_rtt) _ _ refl refl

  pub mark-has_peer : (e : Engine f) → (mark e).has_peer ≡ e.has_peer
  mark-has_peer e =
      if_both (λ (x : Engine f). x.has_peer ≡ e.has_peer) (e.retries == max_rtt) _ _ refl refl

  pub mark-rto : (e : Engine f) → (mark e).rto ≡ e.rto
  mark-rto e = if_both (λ (x : Engine f). x.rto ≡ e.rto) (e.retries == max_rtt) _ _ refl refl

  -- What either way out leaves: an engine that is shut down, or ready for the answer, with the same time-out.
  abbrev pub Keeps : Engine f → Attempt f → Type 0
  Keeps e (gave_up e') = (e'.initiated ≡ false) × (e'.rto ≡ e.rto)
  Keeps e (went e' bytes) = e'.rto ≡ e.rto

  pub attempt-Keeps :
      (w : World) (k sequence : ℕ) (payload : List ℕ) (e : Engine f)
      → Keeps e (attempt f w k sequence payload e)
  unfolding attempt deinit
  attempt-Keeps w k sequence payload e =
      let m = mark-rto e in
      if_both (Keeps e) (e.retries == max_rtt && not e.has_peer) _ _ (refl, refl)
        (if_both (Keeps e) ((mark e).retries == max_rt) _ _ (refl, m)
          (if_both (Keeps e) (not (w.sends k)) _ _ (refl, m) m))

  pub attempt-went :
      (w : World) (k sequence : ℕ) (payload : List ℕ) (e : Engine f) {e' : Engine f}
      {bytes : List ℕ}
      → attempt f w k sequence payload e ≡ went e' bytes
      → ((e.retries == max_rtt && not e.has_peer) ≡ false)
        × (((mark e).retries == max_rt) ≡ false)
        × (e' ≡ mark e)
        × (bytes ≡ message f (mark e) sequence (w.clock k) payload)
  unfolding attempt
  attempt-went w k sequence payload e {e'} {bytes} h =
      let a = past (e.retries == max_rtt && not e.has_peer) h gave_up-ne-went in
      let b = past ((mark e).retries == max_rt) a.1 gave_up-ne-went in
      let c = past (not (w.sends k)) b.1 gave_up-ne-went in
      let (p, q) = parts c.1 in (a.0, b.0, p, q)
    where
      parts :
          {g g' : Engine f} {m m' : List ℕ}
          → ◌≡◌ {A = Attempt f} (went g m) (went g' m')
          → (g' ≡ g) × (m' ≡ m)
      parts x = (cc, cc)
