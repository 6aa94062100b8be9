-- ===== src/Gateway/Health.antt =====
-- api/main.py: `liveness_check`, `readiness_check`; api/producers/kafka_producer.py: `health_check`.
use log_foundry.Prelude.{
  false-ne-true, ℕ, ◌≡◌, ◌↔◌, refl, String, Bool, true, false, ◌&&◌, if◌then◌else◌, Outcome, ret,
  raise, inl, inr, arith, Outcome-cases, Bool-cases, sym, ap, ret-ne-raise, ret_inj,
}

-- HealthStatus, with the status code of the response.
pub record HealthStatus : Type 0 where
  pub status_code : ℕ
  pub status : String
  pub kafka : Bool
  pub postgres : Bool
  pub redis : Bool
  pub version : String

-- The calls that the checks make. Nothing is assumed of them.
pub record Backends (S : Type 0) : Type 0 where
  -- `partitions_for`: whether the client knows the topic
  pub partitions_for : String → S → Outcome Bool × S
  pub acquire : S → Outcome (Unit {0}) × S
  pub select_one : S → Outcome (Unit {0}) × S
  pub release : S → Outcome (Unit {0}) × S
  pub ping : S → Outcome (Unit {0}) × S

-- The two clients of the application's state that may be missing, and the world.
pub record State (S : Type 0) : Type 0 where
  -- `_producer` of the KafkaLogProducer, which `start` sets
  pub started : Bool
  pub topic : String
  pub world : S

-- What a handler returns to the client of `/health/live`.
abbrev pub liveness_check : String
liveness_check = "alive"

abbrev pub went_through : {A : Type 0} → Outcome A → Bool
went_through (ret a) = true
went_through (raise e) = false

abbrev pub or_false : Outcome Bool → Bool
or_false (ret b) = b
or_false (raise e) = false

-- An error of the body goes out through the block's end, and an error of the end before it.
abbrev pub block_end : Outcome (Unit {0}) → Outcome (Unit {0}) → Outcome (Unit {0})
block_end body (ret ok) = body
block_end body (raise e) = raise e

module _ {S : Type 0} (b : Backends S) where
  -- `KafkaLogProducer.health_check`, which does not raise.
  unfoldable pub health_check : State S → Bool × State S
  health_check a =
      let (known, s) = b.partitions_for a.topic a.world in
      if a.started then (or_false known, record a { world = s }) else (false, a)

  -- `async with pool.acquire() as conn: …`: the connection goes back whatever the query does.
  unfoldable pub check_postgres : S → Outcome (Unit {0}) × S
  check_postgres s =
      let (got, s) = b.acquire s in
      let (answer, t) = b.select_one s in
      let (back, u) = b.release t in
      elim got [ raise e ↦ (raise e, s) | ret ok ↦ (block_end answer back, u) ]

  unfoldable pub readiness_check : State S → HealthStatus × State S
  unfolding health_check check_postgres
  readiness_check a =
      let (kafka_ok, a) = health_check a in
      let (answer, s) = check_postgres a.world in
      let (pong, t) = b.ping s in
      let postgres_ok = went_through answer in
      let redis_ok = went_through pong in
      let all_healthy = kafka_ok && (postgres_ok && redis_ok) in
      (
        record {
          status_code = if all_healthy then 200 else 503;
          status = if all_healthy then "healthy" else "degraded";
          kafka = kafka_ok;
          postgres = postgres_ok;
          redis = redis_ok;
          version = "1.0.0";
        },
        record a { world = t },
      )

went_through_iff : (o : Outcome (Unit {0})) → (went_through o ≡ true) ↔ (o ≡ ret tt)
went_through_iff (ret ok) = ((λ h. refl), (λ h. refl))
went_through_iff (raise e) = ((λ h. absurd (false-ne-true h)), (λ h. absurd (ret-ne-raise (sym h))))

or_false_iff : (o : Outcome Bool) → (or_false o ≡ true) ↔ (o ≡ ret true)
or_false_iff (ret b) = (ap (λ c. ret c), ret_inj)
or_false_iff (raise e) = ((λ h. absurd (false-ne-true h)), (λ h. absurd (ret-ne-raise (sym h))))

block_end_iff :
    (body back : Outcome (Unit {0}))
    → (block_end body back ≡ ret tt) ↔ ((body ≡ ret tt) × (back ≡ ret tt))
block_end_iff body (ret ok) = ((λ h. (h, refl)), (λ h. h.0))
block_end_iff body (raise e) =
    ((λ h. absurd (ret-ne-raise (sym h))), (λ h. absurd (ret-ne-raise (sym h.1))))

-- The status code of three checks.
code_iff :
    (x y z : Bool)
    → (◌≡◌ {A = ℕ} (if x && (y && z) then 200 else 503) 200)
      ↔ ((x ≡ true) × (y ≡ true) × (z ≡ true))
code_iff x y z = ground arith

module _ {S : Type 0} (b : Backends S) where
  -- The worlds in which the checks are made: each is made, whatever the others find.
  abbrev pub after_kafka : State S → S
  after_kafka a = if a.started then (b.partitions_for a.topic a.world).1 else a.world

  abbrev pub after_postgres : State S → S
  after_postgres a = (check_postgres b (after_kafka a)).1

  health_check_iff :
      (a : State S)
      → ((health_check b a).0 ≡ true)
        ↔ ((a.started ≡ true) × ((b.partitions_for a.topic a.world).0 ≡ ret true))
  unfolding health_check
  health_check_iff a = elim (Bool-cases a.started) [
    | inl e ↦
        let i = or_false_iff (b.partitions_for a.topic a.world).0 in
        rw (e, health_check) ((λ h. (refl, i.0 h)), (λ h. i.1 h.1))
    | inr e ↦
        rw (e, health_check) ((λ h. absurd (false-ne-true h)), (λ h. absurd (false-ne-true h.0)))
  ]

  health_check-world : (a : State S) → (health_check b a).1.world ≡ after_kafka a
  unfolding health_check
  health_check-world a = elim (Bool-cases a.started) [
    | inl e ↦ rw (e, health_check) refl
    | inr e ↦ rw (e, health_check) refl
  ]

  check_postgres_iff :
      (s : S)
      → ((check_postgres b s).0 ≡ ret tt) ↔ (
          ((b.acquire s).0 ≡ ret tt)
          × ((b.select_one (b.acquire s).1).0 ≡ ret tt)
          × ((b.release (b.select_one (b.acquire s).1).1).0 ≡ ret tt))
  unfolding check_postgres
  check_postgres_iff s = elim (Outcome-cases (b.acquire s).0) [
    | inl (ok, e) ↦
        let i =
          block_end_iff (b.select_one (b.acquire s).1).0
            (b.release (b.select_one (b.acquire s).1).1).0 in
        rw (e, check_postgres) ((λ h. (refl, (i.0 h).0, (i.0 h).1)), (λ h. i.1 (h.1, h.2)))
    | inr (x, e) ↦
        rw (e, check_postgres)
          ((λ h. absurd (ret-ne-raise (sym h))), (λ h. absurd (ret-ne-raise (sym h.0))))
  ]

  -- The readiness check answers 200 exactly if the producer was started and knows the topic, a
  -- connection is acquired, answers and goes back, and Redis answers, each as the checks before it
  -- leave the world; the later checks are made whatever the earlier ones find.
  pub readiness_check_iff :
      (a : State S)
      → ((readiness_check b a).0.status_code ≡ 200) ↔ (
          (a.started ≡ true)
          × ((b.partitions_for a.topic a.world).0 ≡ ret true)
          × ((b.acquire (after_kafka a)).0 ≡ ret tt)
          × ((b.select_one (b.acquire (after_kafka a)).1).0 ≡ ret tt)
          × ((b.release (b.select_one (b.acquire (after_kafka a)).1).1).0 ≡ ret tt)
          × ((b.ping (after_postgres a)).0 ≡ ret tt))
  unfolding readiness_check
  readiness_check_iff a =
      let w = health_check-world a in
      let k = health_check_iff a in
      let p = check_postgres_iff (after_kafka a) in
      let x = (health_check b a).0 in
      let y = went_through (check_postgres b (after_kafka a)).0 in
      let z = went_through (b.ping (after_postgres a)).0 in
      let c = code_iff x y z in
      rw w (
        (λ h.
            let (f, g, i) = c.0 h in
            let (f1, f2) = k.0 f in
            let (g1, g2, g3) = p.0 ((went_through_iff _).0 g) in
            (f1, f2, g1, g2, g3, (went_through_iff _).0 i)),
        (λ h. c.1 (
          k.1 (h.0, h.1),
          (went_through_iff _).1 (p.1 (h.2, h.3, h.4)),
          (went_through_iff _).1 h.5,
        )),
      )
