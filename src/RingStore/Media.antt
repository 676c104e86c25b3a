-- ===== src/RingStore/Media.antt =====
-- `sync_media`. Of the steady clock only differences are used; `now` is a reading of it, after which the
-- next one may be later.
use tfdb.Prelude.{ℕ, max, Bool, false, if◌then◌else◌}
use tfdb.Status.{ErrorCode, Status, ok, error}
use tfdb.RingStore.State.{Device, Impl, add64, sub64, fail}

module _ {S : Type 0} (dev : Device S) where
  -- The metrics and their mirrors that each flush updates.
  unfoldable pub record_sync : ℕ → Impl S → Impl S
  record_sync elapsed s =
      let calls = add64 s.metrics.sync_calls 1 in
      let longest = max s.metrics.max_sync_duration_ns elapsed in
      record s {
        metrics = record s.metrics {
          sync_calls = calls;
          last_sync_duration_ns = elapsed;
          max_sync_duration_ns = longest;
        };
        health = record s.health {
          health_sync_calls = calls;
          health_last_sync_ns = elapsed;
          health_max_sync_ns = longest;
        };
      }

  abbrev pub count_sync_error : Impl S → Impl S
  count_sync_error s =
      let errors = add64 s.metrics.sync_errors 1 in
      record s {
        metrics = record s.metrics { sync_errors = errors };
        health = record s.health { health_sync_errors = errors };
      }

  unfoldable pub sync_failed : ErrorCode → Impl S → Status × Impl S
  unfolding fail
  sync_failed code s = fail code (count_sync_error s)

  -- `have_undurable_records` is cleared, and the age of the oldest record counted.
  unfoldable pub settle_undurable : Impl S → Impl S
  settle_undurable s =
      if s.have_undurable_records
      then (let (durable_at, storage') = dev.now s.storage in
          record s {
            storage = storage';
            metrics = record s.metrics {
              max_accepted_to_durable_ns =
                  max s.metrics.max_accepted_to_durable_ns
                    (sub64 durable_at s.oldest_undurable_record);
            };
            have_undurable_records = false;
            health = record s.health { health_have_undurable = false };
          })
      else s

  unfoldable pub advance_durability : Impl S → Impl S
  unfolding settle_undurable
  advance_durability s =
      let points = add64 s.metrics.checkpoints 1 in
      settle_undurable (record s {
        dirty = false;
        metrics = record s.metrics {
          checkpoints = points;
          durable_records = s.metrics.accepted_records;
          durable_blocks = s.metrics.published_blocks;
        };
        health = record s.health { health_checkpoints = points };
      })

  abbrev pub after_sync : Bool → Status → Impl S → Status × Impl S
  after_sync advances (error code) s = sync_failed code s
  after_sync advances ok s = (ok, if advances then advance_durability s else s)

  unfoldable pub sync_media : Bool → Impl S → Status × Impl S
  unfolding record_sync sync_failed advance_durability
  sync_media advances_durability s =
      let (started, storage1) = dev.now s.storage in
      let (status, storage2) = dev.flush storage1 in
      let (ended, storage3) = dev.now storage2 in
      after_sync advances_durability status
        (record_sync (sub64 ended started) (record s { storage = storage3 }))
