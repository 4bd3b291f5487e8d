-- ===== src/World.antt =====
-- The state that the orchestrator and the worker act on: the store, how often the clock and the
-- generator of ids were read, and the part of the outside world that hooks and handlers change.
use fine_tune_harness.Base.{ℕ, ◌+◌, String, Option, Dict}
use fine_tune_harness.Effects.{return, Exec}
use fine_tune_harness.State.Value.{Value, Fields}
use fine_tune_harness.State.Memory.{Store, Stamp, new_event, append_event}

-- What the program reads of its surroundings: the n-th reading of the clock, the n-th fresh id, the
-- hash of a configuration (SHA-256 of its JSON text) and the snapshot of the environment.
pub record Env : Type 0 where
  pub now : ℕ → ℕ
  pub uuid : ℕ → String
  pub canonical_json_hash : Fields → String
  pub env_snapshot : Fields
  pub decimal : ℕ → String  -- the digits of a number, as a format string writes them

pub record World (E : Type 0) : Type 0 where
  pub store : Store
  pub reads : ℕ
  pub run_seeds : Dict (Option Value)  -- of the runs that the worker has started
  pub outside : E

abbrev pub Act : Type 0 → Type 0 → Type 0
Act E A = Exec (World E) A

module _ {E : Type 0} where
  -- A call of the store.
  unfoldable pub on_store : {A : Type 0} → Exec Store A → Act E A
  on_store f w = let (r, s) = f w.store in (r, record w { store = s })

  unfoldable pub ask : {A : Type 0} → (Store → A) → Act E A
  ask f w = (return (f w.store), w)

  -- A method of the store that cannot raise.
  unfoldable pub run_store : {A : Type 0} → (Store → A × Store) → Act E A
  run_store f w = let (a, s) = f w.store in (return a, record w { store = s })

abbrev pub stamp_at : Env → ℕ → Stamp
stamp_at env n = record { event_id = env.uuid n; created_at = env.now n }

module _ {E : Type 0} (env : Env) where
  unfoldable pub utc_now : Act E ℕ
  utc_now w = (return (env.now w.reads), record w { reads = w.reads + 1 })

  unfoldable pub fresh_id : Act E String
  fresh_id w = (return (env.uuid w.reads), record w { reads = w.reads + 1 })

  -- `store.append_event(EventRecord(event_id=uuid4().hex, …))`
  unfoldable pub record_event : String → Option String → String → Fields → Act E (Unit {0})
  record_event run_id task_id kind payload w = (
    return tt,
    record w {
      store = append_event (new_event (stamp_at env w.reads) run_id task_id kind payload) w.store;
      reads = w.reads + 1;
    },
  )
