-- ===== src/Beacon/HeightMap/Restore/Windows.antt =====
-- The loops of `_load_blocks_from`: a round, a window, and all windows.
use mathlib.Core.Path.{subst}
use corpochain_beacon_client.Base.{
  ℕ, zero, suc, ◌+◌, ◌-◌, ◌*◌, ◌≤◌, ◌<◌, ◌≡◌, refl, ◌⊎◌, Bool, true, false, Option, none, some,
  List, ◌∙◌, sym, ltb, ◌==◌, if◌then◌else◌, length, ok, arith, Bool-cases, inl, inr, ltb→lt, lt→ltb,
  ap, ==_iff,
}
use corpochain_beacon_client.Base.Dict.{Distinct, lookup}
use corpochain_beacon_client.Beacon.HeightMap.{BlockHeightMap, set_hash, get_hash}
use corpochain_beacon_client.Beacon.HeightMap.Reads.{
  get_hash-set_hash, length-set_hash, get_hash-read, read,
}
use corpochain_beacon_client.Beacon.HeightMap.Load.{
  Row, Database, Loading, done, more, window, ordered, match_entry, load_window, load_windows,
}
use corpochain_beacon_client.Beacon.HeightMap.Restore.{
  IsChain, IsRight, IsTrusted, Restored, Follows, Good, Checked, match_none, match_some,
}

load_window_stop :
    (rows : List Row) (window_end k : ℕ) (prev_hash : List ℕ) (m : BlockHeightMap)
    → ltb window_end (suc k) ≡ false
    → load_window rows window_end (suc k) prev_hash m ≡ ok (more (suc k) prev_hash m)
unfolding load_window
load_window_stop rows window_end k prev_hash m h = rw (h, load_window) refl

load_window_step :
    (rows : List Row) (window_end k : ℕ) (prev_hash : List ℕ) (m : BlockHeightMap) (entry : Row)
    (r : Bool × BlockHeightMap)
    → ltb window_end (suc k) ≡ true
    → ordered rows prev_hash ≡ some entry
    → entry.height ≡ k
    → match_entry k prev_hash entry.sub_epoch_summary m ≡ ok r
    → load_window rows window_end (suc k) prev_hash m ≡ (elim r.0 [
      | true ↦ ok (done r.1)
      | false ↦ load_window rows window_end k entry.prev_hash (set_hash k prev_hash r.1)
    ])
unfolding load_window
load_window_step rows window_end k prev_hash m entry r h found height e =
    let fits : (suc k == entry.height + 1) ≡ true = ground arith in
    rw (h, load_window) (rw found (rw fits (rw e refl)))

load_windows_step :
    (fuel window_size k : ℕ) (rows : List Row) (prev_hash : List ℕ) (m : BlockHeightMap)
    (l : Loading)
    → let window_end = suc k - window_size in
      load_window (window window_end (suc k) rows) window_end (suc k) prev_hash m ≡ ok l
      → load_windows (suc fuel) rows window_size (suc k) prev_hash m ≡ (elim l [
        | done n ↦ ok n
        | more h prev_hash n ↦ load_windows fuel rows 5000 h prev_hash n
      ])
unfolding load_windows
load_windows_step fuel window_size k rows prev_hash m l e =
    let goes : ltb 0 (suc k) ≡ true = ground arith in rw (goes, load_windows) (rw e refl)

module _ (db : Database) (row_at : ℕ → Row) (top : ℕ) (cached : BlockHeightMap) where
  pub set_hash_summaries :
      (k : ℕ) (hash : List ℕ) (m : BlockHeightMap) (j : ℕ)
      → lookup j (set_hash k hash m).sub_epoch_summaries ≡ lookup j m.sub_epoch_summaries
  unfolding set_hash
  set_hash_summaries k hash m j = refl

  pub set_hash_distinct :
      (k : ℕ) (hash : List ℕ) (m : BlockHeightMap)
      → Distinct m.sub_epoch_summaries
      → Distinct (set_hash k hash m).sub_epoch_summaries
  unfolding set_hash
  set_hash_distinct k hash m d = d

  match_entry-returns :
      (k : ℕ) (m : BlockHeightMap)
      → IsTrusted db row_at top cached
      → k < top
      → Restored db row_at top cached (suc k) m
      → (r : Bool × BlockHeightMap) × (match_entry k
            (row_at k).header_hash
            (row_at k).sub_epoch_summary
            m
          ≡ ok r)
        × Checked db row_at top cached k m r
  match_entry-returns k m trusted low r = go (row_at k).sub_epoch_summary refl
    where
      go :
          (ses : Option (List ℕ))
          → (row_at k).sub_epoch_summary ≡ ses
          → (r : Bool × BlockHeightMap) × (match_entry k (row_at k).header_hash ses m ≡ ok r)
            × Checked db row_at top cached k m r
      go none lacks = match_none db row_at top cached k (row_at k).header_hash m r.distinct lacks
      go (some ses) has =
          let size = r.size in
          match_some db row_at top cached trusted k ses m low (omega arith) r has

  set_hash-Restored :
      (k : ℕ) (m m' : BlockHeightMap)
      → IsChain db row_at top
      → k < top
      → Restored db row_at top cached (suc k) m
      → Checked db row_at top cached k m (false, m')
      → Restored db row_at top cached k (set_hash k (row_at k).header_hash m')
  set_hash-Restored k m m' chain low r (buffer, summaries, distinct) =
      let hash = (row_at k).header_hash in
      let sized = chain.sizes k (omega arith) in
      let size = r.size in
      let whole : length m'.height_to_hash ≡ (top + 1) * 32 = ap length buffer ∙ size in
      let reads : (j : ℕ)
          → get_hash j (set_hash k hash m') ≡ (if j == k then ok hash else get_hash j m) =
        (λ j.
          let old = get_hash-read j m in
          let new = get_hash-read j m' in
          let set = get_hash-set_hash k j hash m' sized (omega arith) (omega arith) in
          ground (arith, ap (λ b. read j b) buffer)) in
      let known : (j : ℕ)
          → lookup j (set_hash k hash m').sub_epoch_summaries
            ≡ (if j == k then (row_at k).sub_epoch_summary else lookup j m.sub_epoch_summaries) =
        (λ j. set_hash_summaries k hash m' j ∙ summaries j) in
      record {
        size = length-set_hash k hash m' sized (omega arith) ∙ whole;
        peak = (let p = r.peak in let q = reads top in ground arith);
        above = λ j from below. elim (Bool-cases (j == k)) [
          | inl here ↦
              let e = (==_iff j k).0 here in
              subst (λ i. IsRight db row_at top i (set_hash k hash m')) (sym e)
                ((let q = reads k in ground arith), (let q = known k in ground arith))
          | inr other ↦
              let old = r.above j (ground arith) below in
              ((let q = reads j in ground arith), (let q = known j in ground arith))
        ];
        below = λ j under.
            let old = r.below j (omega arith) in
            ((let q = reads j in ground arith), (let q = known j in ground arith));
        distinct = set_hash_distinct k hash m' distinct;
      }

  -- A round of the loop on the entry of height `k` returns with everything right, or goes on with
  -- that height restored.
  load_window-round :
      (window_end high k : ℕ) (m : BlockHeightMap)
      → IsChain db row_at top
      → IsTrusted db row_at top cached
      → window_end < suc k
      → k < high
      → high ≤ top
      → Restored db row_at top cached (suc k) m
      → let rows = window window_end high db.main_chain in
        let call = load_window rows window_end (suc k) (row_at k).header_hash m in
        ((n : BlockHeightMap) × (call ≡ ok (done n)) × Restored db row_at top cached 0 n)
        ⊎ ((n : BlockHeightMap) × (call ≡ load_window rows window_end k (row_at k).prev_hash n)
            × Restored db row_at top cached k n)
  load_window-round window_end high k m chain trusted goes to le r =
      let (e, checks, checked) = match_entry-returns k m trusted (omega arith) r in
      finish e.0 e.1 checked (
        load_window_step (window window_end high db.main_chain) window_end k (row_at k).header_hash
          m (row_at k) e (lt→ltb _ _ goes) (chain.rows window_end high k (omega arith) to le)
          (chain.heights k (omega arith)) checks)
    where
      rows : List Row
      rows = window window_end high db.main_chain

      finish :
          (b : Bool) (n : BlockHeightMap)
          → Checked db row_at top cached k m (b, n)
          → load_window rows window_end (suc k) (row_at k).header_hash m ≡ (elim b [
            | true ↦ ok (done n)
            | false ↦
                load_window rows window_end k
                  (row_at k).prev_hash
                  (set_hash k (row_at k).header_hash n)
          ])
          → ((n : BlockHeightMap) × (load_window rows window_end (suc k) (row_at k).header_hash m
                ≡ ok (done n))
              × Restored db row_at top cached 0 n)
            ⊎ ((n : BlockHeightMap) × (load_window rows window_end (suc k) (row_at k).header_hash m
                  ≡ load_window rows window_end k (row_at k).prev_hash n)
                × Restored db row_at top cached k n)
      finish true n checked step = inl (n, step, checked)
      finish false n checked step = inr (
        set_hash k (row_at k).header_hash n,
        step,
        set_hash-Restored k m n chain (omega arith) r checked,
      )

  pub follows :
      (k : ℕ)
      → IsChain db row_at top
      → k ≤ top
      → Follows db row_at top cached k (row_at k).prev_hash
  follows zero chain le = tt
  follows (suc k) chain le = chain.links k (omega arith)

  -- A window is loaded without an exception: its assertion and its lookups succeed.
  load_window-Good :
      (window_end high : ℕ) (h : ℕ) (prev_hash : List ℕ) (m : BlockHeightMap)
      → IsChain db row_at top
      → IsTrusted db row_at top cached
      → window_end ≤ h
      → h ≤ high
      → high ≤ top
      → Restored db row_at top cached h m
      → Follows db row_at top cached h prev_hash
      → (l : Loading) × (load_window (window window_end high db.main_chain) window_end h prev_hash m
          ≡ ok l)
        × Good db row_at top cached window_end l
  unfolding load_window
  load_window-Good window_end high zero prev_hash m chain trusted from to le r f =
      (more zero prev_hash m, refl, (omega arith, r, tt))
  load_window-Good window_end high (suc k) prev_hash m chain trusted from to le r f =
      let rows = window window_end high db.main_chain in
      elim (Bool-cases (ltb window_end (suc k))) [
        | inr stop ↦ (
          more (suc k) prev_hash m,
          load_window_stop rows window_end k prev_hash m stop,
          (ground arith, r, f),
        )
        | inl goes ↦
            let named = ap (λ p. load_window rows window_end (suc k) p m) f in
            elim (load_window-round window_end high k m chain trusted (ltb→lt _ _ goes)
              (omega arith) le r) [
                | inl (n, e, right) ↦ (done n, named ∙ e, right)
                | inr (n, e, next) ↦
                    let (l, e', good) =
                      load_window-Good window_end high k (row_at k).prev_hash n chain trusted
                        (ground arith) (omega arith) le next (follows k chain (omega arith)) in
                    (l, named ∙ (e ∙ e'), good)
              ]
      ]

  -- Fuel of the height and one more is enough, for windows of one block or more.
  pub load_windows-Restored :
      (fuel window_size h : ℕ) (prev_hash : List ℕ) (m : BlockHeightMap)
      → IsChain db row_at top
      → IsTrusted db row_at top cached
      → 0 < window_size
      → h < fuel
      → h ≤ top
      → Restored db row_at top cached h m
      → Follows db row_at top cached h prev_hash
      → (n : BlockHeightMap) × (load_windows fuel db.main_chain window_size h prev_hash m ≡ ok n)
        × Restored db row_at top cached 0 n
  unfolding load_windows
  load_windows-Restored zero window_size h prev_hash m chain trusted some_size enough le r f =
      absurd (omega arith)
  load_windows-Restored (suc fuel) window_size zero prev_hash m chain trusted some_size enough le r
        f =
      (m, refl, r)
  load_windows-Restored (suc fuel) window_size (suc k) prev_hash m chain trusted some_size enough le
        r f =
      let window_end = suc k - window_size in
      let (l, e, good) =
        load_window-Good window_end (suc k) (suc k) prev_hash m chain trusted (omega arith)
          (omega arith) le r f in
      finish l good (load_windows_step fuel window_size k db.main_chain prev_hash m l e)
        (λ h p n below next follow.
          load_windows-Restored fuel 5000 h p n chain trusted (omega arith) (omega arith)
            (omega arith) next follow)
    where
      finish :
          (l : Loading)
          → Good db row_at top cached (suc k - window_size) l
          → load_windows (suc fuel) db.main_chain window_size (suc k) prev_hash m ≡ (elim l [
            | done n ↦ ok n
            | more h prev_hash n ↦ load_windows fuel db.main_chain 5000 h prev_hash n
          ])
          → ((h : ℕ) (p : List ℕ) (n : BlockHeightMap)
              → h ≤ k
              → Restored db row_at top cached h n
              → Follows db row_at top cached h p
              → (o : BlockHeightMap) × (load_windows fuel db.main_chain 5000 h p n ≡ ok o)
                × Restored db row_at top cached 0 o)
          → (n : BlockHeightMap) × (load_windows
                (suc fuel)
                db.main_chain
                window_size
                (suc k)
                prev_hash
                m
              ≡ ok n)
            × Restored db row_at top cached 0 n
      finish (done n) good step again = (n, step, good)
      finish (more h p n) (at, next, follow) step again =
          let (o, e, right) = again h p n (omega arith) next follow in (o, step ∙ e, right)
