-- ===== src/Profiles/Spec.antt =====
-- What `CronProfileStore` promises its clients: a map from keys to profiles, of bounded size.
use mikrus_mcp.Profiles.Store.{delete, upsert, get}
use mikrus_mcp.Errors.{value_error, not_found, app_error, ok, err, Result}
use mikrus_mcp.RemoteJobs.Store.{Store}
use mikrus_mcp.Profiles.Store.{key_eq, key_of, or_not_found, Key}
use mikrus_mcp.Profiles.Record.{CronProfileRecord}
use mikrus_mcp.Json.{JsonLib}
use mikrus_mcp.Exec.{Exec}
use mikrus_mcp.Prelude.{[], ◌-◌, ◌+◌, leb, ◌∷◌, ℕ, if◌then◌else◌, Option, List, none, some}

pub record ProfileMap : Type 0 where
  pub entry : Key → Option CronProfileRecord
  pub count : ℕ
  pub capacity : ℕ

-- The map with one entry changed.
abbrev pub assign :
    Key
    → Option CronProfileRecord
    → (Key → Option CronProfileRecord)
    → Key
    → Option CronProfileRecord
assign k v entry j = if key_eq k j then v else entry j

abbrev pub put_entry :
    CronProfileRecord → Option CronProfileRecord → Exec ProfileMap CronProfileRecord
put_entry r (some old) m = (ok r, record m { entry = assign (key_of r) (some r) m.entry })
put_entry r none m =
    if leb m.capacity m.count
    then (err value_error, m)
    else (ok r, record m { entry = assign (key_of r) (some r) m.entry; count = m.count + 1 })

abbrev pub drop_entry : Key → Option CronProfileRecord → Exec ProfileMap CronProfileRecord
drop_entry k none m = (err (app_error not_found), m)
drop_entry k (some old) m =
    (ok old, record m { entry = assign k none m.entry; count = m.count - 1 })

pub data Call : Type 0 where
  get_call : Key → Call
  upsert_call : CronProfileRecord → Call
  delete_call : Key → Call

-- A call on the map.
unfoldable pub map_call : Call → Exec ProfileMap CronProfileRecord
map_call (get_call k) m = (or_not_found (m.entry k), m)
map_call (upsert_call r) m = put_entry r (m.entry (key_of r)) m
map_call (delete_call k) m = drop_entry k (m.entry k) m

-- The same call on the store.
unfoldable pub store_call : {C : Type 0} → JsonLib C → Call → Exec (Store C) CronProfileRecord
store_call json (get_call k) = get json k
store_call json (upsert_call r) = upsert json r
store_call json (delete_call k) = delete json k

-- What a sequence of calls answers, from a state.
abbrev pub answers :
    {S : Type 0}
    → (Call → Exec S CronProfileRecord)
    → List Call
    → S
    → List (Result CronProfileRecord)
answers call [] s = []
answers call (c ∷ cs) s = (call c s).0 ∷ answers call cs (call c s).1
