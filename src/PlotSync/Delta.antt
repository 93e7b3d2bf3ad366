-- ===== src/PlotSync/Delta.antt =====
-- Changes to the sets of plots and paths: corpochain/plot_sync/delta.py. A path is the number that
-- its text spells, since paths are only compared. Of a plot, the receiver reads its file name and
-- its file size.
pub mod Lists
use corpochain_beacon_client.Base.{
  ℕ, Bool, not, ◌&&◌, List, [], ◌∷◌, elem, if◌then◌else◌, length, ◌==◌,
}
use corpochain_beacon_client.Base.Dict.{Dict}

pub record Plot : Type 0 where
  pub filename : ℕ
  pub file_size : ℕ

pub record PlotListDelta : Type 0 where
  pub additions : Dict Plot
  pub removals : List ℕ

pub record PathListDelta : Type 0 where
  pub additions : List ℕ
  pub removals : List ℕ

pub record Delta : Type 0 where
  pub valid : PlotListDelta
  pub invalid : PathListDelta
  pub keys_missing : PathListDelta
  pub duplicates : PathListDelta

abbrev pub no_plots : PlotListDelta
no_plots = record { additions = []; removals = [] }

abbrev pub no_paths : PathListDelta
no_paths = record { additions = []; removals = [] }

-- `Delta()`, which `clear` restores
abbrev pub no_change : Delta
no_change = record {
  valid = no_plots;
  invalid = no_paths;
  keys_missing = no_paths;
  duplicates = no_paths;
}

-- `[x for x in xs if x not in ys]`
unfoldable pub without : List ℕ → List ℕ → List ℕ
without [] ys = []
without (x ∷ xs) ys = if elem x ys then without xs ys else x ∷ without xs ys

unfoldable pub from_lists : List ℕ → List ℕ → PathListDelta
unfolding without
from_lists old new = record { additions = without new old; removals = without old new }

abbrev pub is_empty_plots : PlotListDelta → Bool
is_empty_plots d = (length d.additions == 0) && (length d.removals == 0)

abbrev pub is_empty_paths : PathListDelta → Bool
is_empty_paths d = (length d.additions == 0) && (length d.removals == 0)

-- `Delta.empty`
unfoldable pub is_empty : Delta → Bool
is_empty d =
    is_empty_plots d.valid
    && is_empty_paths d.invalid
    && is_empty_paths d.keys_missing
    && is_empty_paths d.duplicates
