-- ===== src/Adapter/Watched.antt =====
-- The cleanup keeps to the order of the calls, from what was seen before it.
use postgres_migration_rehea.Adapter.Cleanup.{
  written, with_receipt_of, blocked, counted_left, taken_down, clean_started, partial_inspected,
}
use postgres_migration_rehea.Adapter.Faults.{
  runtime_error, runtime_identity_error, relay_error, engine_busy, key_error, fixture_error,
  command_timeout, os_error, file_not_found, type_error, Attempt, done, fault,
}
use postgres_migration_rehea.Adapter.Local.{checked, Resource, resource_ids, same_set}
use postgres_migration_rehea.Adapter.Receipts.{Receipt, Loaded, ControlDir, cleanup_receipt}
use postgres_migration_rehea.Adapter.Runtime.{
  Event, listed, composed_down, inspected, receipted, Answers, Body,
}
use postgres_migration_rehea.Adapter.Watch.{
  Seen, at_start, receipt_fits, watch, IsWatched, watch-snoc,
}
use postgres_migration_rehea.Base.{
  ==_refl, Bool-cases, length, ℕ, ◌≡◌, refl, inl, inr, true, false, some, List, [], ◌∷◌, ◌++◌,
  String,
}
use postgres_migration_rehea.Http.{Json}

module _ {Raw : Type 0} (dumps : Receipt → Raw) (loads : Raw → Loaded) (size : Raw → ℕ)
    (nonce : String) where
  pub written-IsWatched :
      (out : Attempt (Unit {0}) × ControlDir Raw) (result : Attempt Json) (events : List Event)
      → IsWatched events
      → IsWatched (written dumps loads size nonce out result events).events
  written-IsWatched (done _, d) result events h = h
  written-IsWatched (fault e, d) result events h = h

  module _ (a : Answers) (b : Body) (d : ControlDir Raw) where
    pub with_receipt_of-IsWatched :
        (r : Receipt) (result : Attempt Json) (events : List Event) (t : Seen)
        → watch at_start events ≡ some t
        → receipt_fits t r ≡ true
        → IsWatched (with_receipt_of dumps loads size nonce a r result events d).events
    unfolding cleanup_receipt
    with_receipt_of-IsWatched r result events t h fits =
        written-IsWatched (cleanup_receipt dumps loads size a.io r d) result
          (events ++ receipted r ∷ []) (t, watch-snoc at_start t events (receipted r) h fits)

    pub blocked-IsWatched :
        (left : List Resource) (message : String) (events : List Event) (t : Seen)
        → watch at_start events ≡ some t
        → t.up ≡ true
        → t.last ≡ some left
        → IsWatched (blocked dumps loads size nonce a b left message events d).events
    blocked-IsWatched left message events t h up last =
        with_receipt_of-IsWatched _ _ events t h (rw (up, last, ==_refl (length left)) refl)

    pub counted_left-IsWatched :
        (message : String) (left : Attempt (List Resource)) (events : List Event) (t : Seen)
        → watch at_start events ≡ some t
        → t.up ≡ true
        → t.downed ≡ true
        → IsWatched (counted_left dumps loads size nonce a b message left events d).events
    counted_left-IsWatched message (fault e) events t h up downed = (t, h)
    counted_left-IsWatched message (done []) events t h up downed =
        with_receipt_of-IsWatched _ b.result (events ++ listed [] ∷ []) _
          (watch-snoc at_start t events (listed []) h refl) (rw (downed) refl)
    counted_left-IsWatched message (done (r ∷ rs)) events t h up downed =
        blocked-IsWatched (r ∷ rs) message (events ++ listed (r ∷ rs) ∷ []) _
          (watch-snoc at_start t events (listed (r ∷ rs)) h refl) up refl

    pub taken_down-IsWatched :
        (message : String) (down : Attempt (Unit {0})) (events : List Event) (t : Seen)
        → watch at_start events ≡ some t
        → t.up ≡ true
        → t.relay ≡ false
        → t.approved ≡ true
        → IsWatched (taken_down dumps loads size nonce a b message down events d).events
    unfolding resource_ids
    taken_down-IsWatched message (fault e) events t h up closed approved =
        (_, watch-snoc at_start t events composed_down h (rw (up, closed, approved) refl))
    taken_down-IsWatched message (done _) events t h up closed approved =
        counted_left-IsWatched message (resource_ids a.remaining) (events ++ composed_down ∷ []) _
          (watch-snoc at_start t events composed_down h (rw (up, closed, approved) refl)) up refl

    pub clean_started-IsWatched :
        (owned : List Resource) (current : Attempt (List Resource)) (events : List Event) (t : Seen)
        → watch at_start events ≡ some t
        → t.up ≡ true
        → t.relay ≡ false
        → t.approved ≡ true
        → t.last ≡ some owned
        → IsWatched (clean_started dumps loads size nonce a b owned current events d).events
    clean_started-IsWatched owned (fault e) events t h up closed approved last = (t, h)
    clean_started-IsWatched owned (done current) events t h up closed approved last =
        let now = watch-snoc at_start t events (listed current) h refl in
        elim (Bool-cases (same_set current owned)) [
          | inl same ↦ rw (same) (
              taken_down-IsWatched _ (checked a.down) (events ++ listed current ∷ []) _ now up
                closed (rw (approved, last, same) refl))
          | inr drift ↦
              rw (drift) (blocked-IsWatched current _ (events ++ listed current ∷ []) _ now up refl)
        ]

    pub partial_inspected-IsWatched :
        (partial : List Resource) (v : Attempt Json) (events : List Event) (t : Seen)
        → watch at_start events ≡ some t
        → t.up ≡ true
        → t.relay ≡ false
        → t.last ≡ some partial
        → IsWatched (partial_inspected dumps loads size nonce a b partial v events d).events
    partial_inspected-IsWatched partial (done v) events t h up closed last =
        taken_down-IsWatched _ (checked a.down) (events ++ inspected ∷ []) _
          (watch-snoc at_start t events inspected h up) up closed refl
    partial_inspected-IsWatched partial (fault (runtime_identity_error m)) events t h up closed
          last =
        blocked-IsWatched partial _ events t h up last
    partial_inspected-IsWatched partial (fault (runtime_error m)) events t h up closed last = (t, h)
    partial_inspected-IsWatched partial (fault (relay_error m)) events t h up closed last = (t, h)
    partial_inspected-IsWatched partial (fault (engine_busy m)) events t h up closed last = (t, h)
    partial_inspected-IsWatched partial (fault (key_error m)) events t h up closed last = (t, h)
    partial_inspected-IsWatched partial (fault (fixture_error m n)) events t h up closed last =
        (t, h)
    partial_inspected-IsWatched partial (fault command_timeout) events t h up closed last = (t, h)
    partial_inspected-IsWatched partial (fault os_error) events t h up closed last = (t, h)
    partial_inspected-IsWatched partial (fault file_not_found) events t h up closed last = (t, h)
    partial_inspected-IsWatched partial (fault type_error) events t h up closed last = (t, h)
