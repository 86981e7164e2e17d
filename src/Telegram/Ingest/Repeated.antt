-- ===== src/Telegram/Ingest/Repeated.antt =====
-- A payload that telegram/telegram-ingest.controller.ts gets twice.
mod Tests
use social_monitor.Prelude.{
  ℕ, ◌≡◌, refl, sym, ap, subst, ◌∙◌, Text, nonempty, ◌==◌, Bool, true, false, not, ◌||◌, [], Option,
  none, some, arith, if◌then◌else◌,
}
use social_monitor.Core.{Result, ok, err, Action}
use social_monitor.Schema.{MonitorTarget, MessageSource}
use social_monitor.World.{Services, World, Job}
use social_monitor.Messages.Dto.{MessageDto, NormalizedMessage}
use social_monitor.Messages.Repository.{find_telegram_target_by_external_id}
use social_monitor.Messages.Create.{create}
use social_monitor.Messages.Create.Laws.{MessageLaws}
use social_monitor.Messages.Create.Once.{Kept, create_twice}
use social_monitor.Telegram.Mapper.{RawTelegramMessage, to_normalized_message}
use social_monitor.Telegram.Ingest.{
  IngestAnswer, ingest, ingest_payload, ingest_for, answered, normalized, has_secret,
  invalid_secret, not_monitored, look_up,
}

module _ {D N R : Type 0} (sv : Services D N R) where
  -- The look-up of a chat gives a target, and reads only.
  abbrev pub Finds : Text → World D N R → Option MonitorTarget → Type 0
  Finds chat_id s t = find_telegram_target_by_external_id sv.prisma chat_id s.db ≡ (ok t, s.db)

  payload_lem :
      (others : D → D) (payload : RawTelegramMessage) (s : World D N R) (t : Option MonitorTarget)
      → Finds payload.chat_id s t
      → ingest_payload sv others payload s ≡ ingest_for sv others payload t s
  unfolding ingest_payload look_up
  payload_lem others payload s t h = rw h refl

  same_answer :
      (r r' : Result MessageDto) (s s' : World D N R)
      → r' ≡ r
      → (answered sv (r', s')).0 ≡ (answered sv (r, s)).0
  same_answer (ok a) r' s s' e = rw e refl
  same_answer (err x) r' s s' e = rw e refl

  answered_state : (r : Result MessageDto) (s : World D N R) → (answered sv (r, s)).1 ≡ s
  answered_state (ok a) s = refl
  answered_state (err x) s = refl

-- The two targets are one monitor, whose last message may have come in between.
abbrev pub SameMonitor : MonitorTarget → MonitorTarget → Type 0
SameMonitor t u = (u.type ≡ t.type) × (u.external_id ≡ t.external_id) × (u.name ≡ t.name)

normalized_same :
    (payload : RawTelegramMessage) (t u : MonitorTarget)
    → SameMonitor t u
    → normalized u payload ≡ normalized t payload
unfolding normalized to_normalized_message
normalized_same payload t u (type, key, name) = rw (type, key, name) refl

module _ {D N R : Type 0} (sv : Services D N R) (laws : MessageLaws sv.prisma)
    (accepts : (job : Job) (r : R) → (sv.bull.add job r).0 ≡ ok tt) where
  second_lem :
      (others' : D → D) (payload : RawTelegramMessage) (s' : World D N R) (t u : MonitorTarget)
      → Finds sv payload.chat_id s' (some u)
      → SameMonitor t u
      → ingest_payload sv others' payload s'
        ≡ answered sv (create sv others' (normalized t payload) s')
  second_lem others' payload s' t u found same =
      payload_lem sv others' payload s' (some u) found
      ∙ ap (λ m. answered sv (create sv others' m s')) (normalized_same payload t u same)

  -- The worker posts a payload of a monitored chat twice, with queues that accept every job. Between
  -- the look-up and the insert of the first post other clients may write anything that leaves the
  -- target's row as it is; between the two posts anything may happen that keeps the message, its
  -- tasks and its target under its name, and enables no further channel. Then the second post gets
  -- the answer of the first, and adds no message, no event and no job.
  pub ingest_twice :
      (others others' : D → D) (payload : RawTelegramMessage) (s s' : World D N R)
      (t u : MonitorTarget)
      → let input = normalized t payload in
        let first = ingest_payload sv others payload s in
        let second = ingest_payload sv others' payload s' in
        Finds sv payload.chat_id s (some t)
        → Finds sv payload.chat_id s' (some u)
        → SameMonitor t u
        → laws.target_at input.target_type input.target_external_id s.db ≡ some t
        → laws.target_at input.target_type input.target_external_id (others s.db) ≡ some t
        → Kept laws input first.1.db s'.db
        → (second.0 ≡ first.0)
          × (second.1.jobs ≡ s'.jobs)
          × (second.1.events ≡ s'.events)
          × ((source : MessageSource) (k : Text)
              → laws.message_at source k second.1.db ≡ laws.message_at source k s'.db)
  ingest_twice others others' payload s s' t u found found' same held held' kept =
      let input = normalized t payload in
      let c = create sv others input s in
      let c' = create sv others' input s' in
      let first = payload_lem sv others payload s (some t) found in
      let second = second_lem others' payload s' t u found' same in
      let state = ap (λ r. r.1) first ∙ answered_state sv c.0 c.1 in
      let kept' = subst (λ (w : World D N R). Kept laws input w.db s'.db) state kept in
      let (answer, jobs, events, messages) =
        create_twice sv laws accepts input others others' s s' t held held' kept' in
      let state' = ap (λ r. r.1) second ∙ answered_state sv c'.0 c'.1 in
      (
        ap (λ r. r.0) second
            ∙ (same_answer sv c.0 c'.0 c.1 c'.1 answer ∙ sym (ap (λ r. r.0) first)),
        ap (λ w. w.jobs) state' ∙ jobs,
        ap (λ w. w.events) state' ∙ events,
        λ source k. ap (λ w. laws.message_at source k w.db) state' ∙ messages source k,
      )
