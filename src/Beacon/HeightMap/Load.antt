-- ===== src/Beacon/HeightMap/Load.antt =====
-- Reading the height map at startup: `create` and `_load_blocks_from` of
-- corpochain/beacon/block_height_map.py. The database is a parameter: the peak's hash, the row of
-- a block by its hash, and the rows of the main chain.
use corpochain_beacon_client.Base.{
  ℕ, zero, suc, ◌+◌, ◌-◌, ◌*◌, Bool, true, false, ◌&&◌, Option, none, some, List, [], ◌∷◌, ◌++◌,
  ltb, leb, ◌==◌, if◌then◌else◌, length, take, Result, ok, err, value_error, assertion_error,
  out_of_fuel, ◌>>=◌, ◌>>◌, require, or_raise,
}
use corpochain_beacon_client.Base.Dict.{Dict, lookup, contains, insert, erase}
use corpochain_beacon_client.Base.Bytes.{bytes_eq}
use corpochain_beacon_client.Beacon.HeightMap.{
  BlockHeightMap, Files, set_hash, get_hash, set_ses, zeros, maybe_flush,
}

-- A row of the table `full_blocks`.
pub record Row : Type 0 where
  pub header_hash : List ℕ
  pub prev_hash : List ℕ
  pub height : ℕ
  pub sub_epoch_summary : Option (List ℕ)

pub record Database : Type 0 where
  pub current_peak : Option (List ℕ)
  pub full_block : List ℕ → Option Row
  pub main_chain : List Row

-- `WHERE in_main_chain=1 AND height>=? AND height <?`
abbrev pub window : ℕ → ℕ → List Row → List Row
window low high [] = []
window low high (r ∷ rows) =
    if leb low r.height && ltb r.height high then r ∷ window low high rows else window low high rows

-- The dictionary `ordered`, in which a later row takes the place of an earlier one.
abbrev pub ordered : List Row → List ℕ → Option Row
ordered [] header_hash = none
ordered (r ∷ rows) header_hash = elim (ordered rows header_hash) [
  | some later ↦ some later
  | none ↦ if bytes_eq header_hash r.header_hash then some r else none
]

-- `height in self.__sub_epoch_summaries and self.__sub_epoch_summaries[height] == ses`
abbrev pub holds_ses : ℕ → List ℕ → BlockHeightMap → Bool
holds_ses height ses m = elim (lookup height m.sub_epoch_summaries) [
  | none ↦ false
  | some known ↦ bytes_eq known ses
]

-- Whether the entry ends the loading, and the map with its summary.
unfoldable pub match_entry :
    ℕ → List ℕ → Option (List ℕ) → BlockHeightMap → Result (Bool × BlockHeightMap)
unfolding get_hash
match_entry height prev_hash (some ses) m = do
  current ← get_hash height m
  ok (
      if bytes_eq current prev_hash && holds_ses height ses m
      then (true, m)
      else (false, set_ses height (some ses) m))
match_entry height prev_hash none m = ok (
    if contains height m.sub_epoch_summaries
    then (false, record m { sub_epoch_summaries = erase height m.sub_epoch_summaries })
    else (false, m))

pub data Loading : Type 0 where
  done : BlockHeightMap → Loading
  more : ℕ → List ℕ → BlockHeightMap → Loading

-- `while height > window_end`. The height falls by one a round, as the assertion says.
unfoldable pub load_window : List Row → ℕ → ℕ → List ℕ → BlockHeightMap → Result Loading
unfolding match_entry set_hash
load_window rows window_end zero prev_hash m = ok (more zero prev_hash m)
load_window rows window_end (suc height) prev_hash m = elim (ltb window_end (suc height)) [
  | false ↦ ok (more (suc height) prev_hash m)
  | true ↦ do
    entry ← or_raise (ordered rows prev_hash) value_error
    require (suc height == entry.height + 1) assertion_error
    (stop, checked) ← match_entry height prev_hash entry.sub_epoch_summary m
    elim stop [
      | true ↦ ok (done checked)
      | false ↦
          load_window rows window_end height entry.prev_hash (set_hash height prev_hash checked)
    ]
]

-- `while height > 0`
unfoldable pub load_windows : ℕ → List Row → ℕ → ℕ → List ℕ → BlockHeightMap → Result BlockHeightMap
unfolding load_window
load_windows zero rows window_size height prev_hash m = err out_of_fuel
load_windows (suc fuel) rows window_size height prev_hash m = elim (ltb 0 height) [
  | false ↦ ok m
  | true ↦ do
    let window_end = height - window_size
    loading ← load_window (window window_end height rows) window_end height prev_hash m
    elim loading [
      | done loaded ↦ ok loaded
      | more height prev_hash loaded ↦ load_windows fuel rows 5000 height prev_hash loaded
    ]
]

unfoldable pub load_blocks_from : Database → ℕ → List ℕ → BlockHeightMap → Result BlockHeightMap
unfolding load_windows
load_blocks_from db height prev_hash m =
    load_windows (suc height) db.main_chain 400 height prev_hash m

abbrev pub empty_map : BlockHeightMap
empty_map = record { height_to_hash = []; sub_epoch_summaries = []; counter = 0; first_dirty = 0 }

-- `{k: v for (k, v) in content}`
abbrev pub to_dict : Dict (List ℕ) → Dict (List ℕ) → Dict (List ℕ)
to_dict [] d = d
to_dict (item ∷ content) d = to_dict content (insert item.0 item.1 d)

-- The hashes of the file, cut or filled with zeros to `new_size`.
abbrev pub resize : ℕ → List ℕ → List ℕ
resize new_size hashes =
    if ltb new_size (length hashes)
    then take new_size hashes
    else hashes ++ zeros (new_size - length hashes)

abbrev pub read_files : Files → ℕ → BlockHeightMap
read_files files height = record {
  height_to_hash =
      resize ((height + 1) * 32) (elim files.height_to_hash [ none ↦ [] | some file ↦ file ]);
  sub_epoch_summaries = elim files.sub_epoch_summaries [
    | none ↦ []
    | some content ↦ to_dict content []
  ];
  counter = 0;
  first_dirty = height + 1;
}

-- The map with the peak in it, before the blocks below are loaded.
unfoldable pub set_peak : Row → BlockHeightMap → Result BlockHeightMap
unfolding get_hash set_hash
set_peak row m = do
  current ← get_hash row.height m
  ok (
      set_ses row.height row.sub_epoch_summary
        (if bytes_eq current row.header_hash then m else set_hash row.height row.header_hash m))

unfoldable pub create : Database → Files → Result (BlockHeightMap × Files)
unfolding set_peak load_blocks_from maybe_flush
create db files = elim db.current_peak [
  | none ↦ ok (empty_map, files)
  | some peak ↦ elim (db.full_block peak) [
    | none ↦ ok (empty_map, files)
    | some row ↦ do
      with_peak ← set_peak row (read_files files row.height)
      m ← load_blocks_from db row.height row.prev_hash with_peak
      maybe_flush m files
  ]
]
