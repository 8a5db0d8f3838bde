-- ===== src/Drivers/Reachable.antt =====
-- The requests of the drivers' service as one command language.
use delivery_tracking.Prelude.{ℕ, List, [], ◌∷◌}
use delivery_tracking.Drivers.Model.{CreateDriverDto, UpdateDriverDto, Db}
use delivery_tracking.Drivers.Service.{as_field, create, update, remove}
use delivery_tracking.Drivers.Agreement.{IsAgreed, HasKey}
use delivery_tracking.Drivers.Requests.{create-IsAgreed, update-IsAgreed, remove-IsAgreed}

-- A request, with the instant at which it runs and the keys that the database gives.
pub data Request : Type 0 where
  creates : (new_id history_id now company_id : ℕ) → CreateDriverDto → Request
  updates : (history_id now company_id id : ℕ) → UpdateDriverDto → Request
  removes : (now company_id id : ℕ) → Request

unfoldable pub serve : Request → Db → Db
serve (creates new_id history_id now company_id dto) db =
    (create new_id history_id now company_id dto db).1
serve (updates history_id now company_id id dto) db = (update history_id now company_id id dto db).1
serve (removes now company_id id) db = (remove now company_id id db).1

abbrev pub serve_all : List Request → Db → Db
serve_all [] db = db
serve_all (r ∷ rs) db = serve_all rs (serve r db)

-- The key that the database gives to a new row of the history is new.
abbrev pub HasNewKey : Request → Db → Type 0
HasNewKey (creates new_id history_id now company_id dto) db =
    HasKey (as_field dto.vehicle_id) history_id db.history
HasNewKey (updates history_id now company_id id dto) db =
    HasKey dto.vehicle_id history_id db.history
HasNewKey (removes now company_id id) db = Unit

abbrev pub HasNewKeys : List Request → Db → Type 0
HasNewKeys [] db = Unit
HasNewKeys (r ∷ rs) db = HasNewKey r db × HasNewKeys rs (serve r db)

serve-IsAgreed :
    (r : Request) (db : Db)
    → IsAgreed db.drivers db.history
    → HasNewKey r db
    → IsAgreed (serve r db).drivers (serve r db).history
unfolding serve
serve-IsAgreed (creates new_id history_id now company_id dto) db h k =
    create-IsAgreed new_id history_id now company_id dto db h k
serve-IsAgreed (updates history_id now company_id id dto) db h k =
    update-IsAgreed history_id now company_id id dto db h k
serve-IsAgreed (removes now company_id id) db h k = remove-IsAgreed now company_id id db h

-- Sequences of creations, updates and removals of drivers, however each ends, keep the invariant that
-- the drivers' rows and the open rows of the history name the same vehicle for every driver, and that
-- no vehicle and no driver has two open rows, if the keys of new rows of the history are new.
pub serve_all-IsAgreed :
    (rs : List Request) (db : Db)
    → IsAgreed db.drivers db.history
    → HasNewKeys rs db
    → IsAgreed (serve_all rs db).drivers (serve_all rs db).history
serve_all-IsAgreed [] db h k = h
serve_all-IsAgreed (r ∷ rs) db h k =
    serve_all-IsAgreed rs (serve r db) (serve-IsAgreed r db h k.0) k.1
