-- ===== src/Tracking/Save.antt =====
-- What saveBatch of Tracking.Batch writes, and what it starts for the rows that it wrote.
use delivery_tracking.Prelude.{
  ℕ, Option, none, some, Bool, ◌&&◌, leb, ◌==◌, if◌then◌else◌, List, [], ◌∷◌, ◌++◌, any,
}
use delivery_tracking.Prelude.Table.{find?}
use delivery_tracking.Tracking.Rows.{
  UpdatePositionDto, ValidPosition, GpsPosition, Db, Sender, Progress,
}
use delivery_tracking.Tracking.Batch.{set_at, valid_positions, db_last, to_insert}

-- Array.sort by the instant, which keeps the order of equal instants.
unfoldable pub insert_by_time : ValidPosition → List ValidPosition → List ValidPosition
insert_by_time p [] = p ∷ []
insert_by_time p (q ∷ qs) =
    if leb p.timestamp q.timestamp then p ∷ q ∷ qs else q ∷ insert_by_time p qs

unfoldable pub sort_by_time : List ValidPosition → List ValidPosition
unfolding insert_by_time
sort_by_time [] = []
sort_by_time (p ∷ ps) = insert_by_time p (sort_by_time ps)

abbrev pub has_key_of : GpsPosition → GpsPosition → Bool
has_key_of r s = s.vehicle_id == r.vehicle_id && s.timestamp == r.timestamp

-- createManyAndReturn with skipDuplicates: a row whose vehicle and instant are taken is left out.
-- The table after it, and the rows that were inserted.
unfoldable pub create_many :
    List GpsPosition → List GpsPosition → List GpsPosition × List GpsPosition
create_many table [] = (table, [])
create_many table (r ∷ rs) =
    let taken = any (has_key_of r) table in
    let (after, inserted) = create_many (if taken then table else table ++ (r ∷ [])) rs in
    (after, if taken then inserted else r ∷ inserted)

-- The calls of generateAlerts, each with the row before it of its vehicle.
pub record AlertCheck : Type 0 where
  pub row : GpsPosition
  pub previous : Option GpsPosition

unfoldable pub alert_checks : (ℕ → Option GpsPosition) → List GpsPosition → List AlertCheck
alert_checks before [] = []
alert_checks before (r ∷ rs) =
    let later = alert_checks (set_at before r.vehicle_id (some r)) rs in
    if r.suspect then later else record { row = r; previous = before r.vehicle_id } ∷ later

-- The keys of `lastByVehicle`, in the order of their first row.
unfoldable pub vehicles_of : List ℕ → List GpsPosition → List ℕ
vehicles_of seen [] = seen
vehicles_of seen (r ∷ rs) =
    vehicles_of (if any (λ v. v == r.vehicle_id) seen then seen else seen ++ (r.vehicle_id ∷ [])) rs

abbrev check_of : Option GpsPosition → List GpsPosition
check_of none = []
check_of (some r) = r ∷ []

-- The rows that checkProximity is called with: `inserted.find` for each of the vehicles.
unfoldable pub proximity_checks : List GpsPosition → List ℕ → List GpsPosition
unfolding find?
proximity_checks inserted [] = []
proximity_checks inserted (v ∷ vs) =
    check_of (find? (λ r. r.vehicle_id == v) inserted) ++ proximity_checks inserted vs

pub record Outcome : Type 0 where
  pub db : Db
  pub saved : List GpsPosition
  pub alerts : List AlertCheck
  pub proximity : List GpsPosition

abbrev pub start : Sender → Db → Progress
start sender db = record { last = db_last sender db; history = λ id. [] }

unfoldable pub save_sorted : Sender → Db → List ValidPosition → Outcome
unfolding to_insert db_last create_many alert_checks vehicles_of proximity_checks
save_sorted sender db sorted =
    let (table, inserted) =
      create_many db.positions (to_insert sender db (start sender db) sorted) in
    record {
      db = record db { positions = table };
      saved = inserted;
      alerts = alert_checks (λ id. none) inserted;
      proximity = proximity_checks inserted (vehicles_of [] inserted);
    }

unfoldable pub save_batch : Sender → Db → List UpdatePositionDto → Outcome
unfolding save_sorted sort_by_time valid_positions
save_batch sender db positions =
    save_sorted sender db (sort_by_time (valid_positions sender db positions))
