-- ===== src/Consensus/Block/SignagePoint.antt =====
-- Where a block's signage point stands in the total count of iterations.
use corpochain_beacon_client.Base.{
  ℕ, ◌+◌, ◌*◌, ◌/◌, ◌≤◌, ◌-◌, Bool, sym, ◌∙◌, ok-injective, ◌≡◌, ok, arith, if◌then◌else◌,
  >>=-eq-ok,
}
use corpochain_beacon_client.Ints.Range.{uint-eq-ok, uint_sub-eq-ok}
use corpochain_beacon_client.Consensus.Constants.{Constants}
use corpochain_beacon_client.Consensus.Iterations.{is_overflow_block}
use corpochain_beacon_client.Consensus.Iterations.Points.{calculate_ip_iters-overflow}
use corpochain_beacon_client.Consensus.Block.{
  BlockRecord, sp_iters, ip_iters, sp_sub_slot_total_iters, sp_total_iters,
}

signage_point_sum :
    (f o : Bool) (ip ssi extra r : ℕ) {sp sp' sp'' start total : ℕ}
    → f ≡ o
    → ip + (if o then ssi else 0) ≡ sp'' + extra + r
    → sp' ≡ sp''
    → sp ≡ start + sp'
    → start ≡ total - (if f then ip + ssi else ip)
    → (if f then ip + ssi else ip) ≤ total
    → sp + extra + r ≡ total
signage_point_sum f o ip ssi extra r p d q s t l = ground arith

module _ (c : Constants) where
  -- The signage point of a block whose overflow flag is right lies the extra intervals and the
  -- required iterations before the block's own infusion point, also across a sub-slot's end.
  pub sp_total_iters_lem :
      (b : BlockRecord) {sp : ℕ}
      → c.num_sp_intervals_extra ≤ c.num_sps_sub_slot
      → is_overflow_block c b.signage_point_index ≡ ok b.overflow
      → sp_total_iters c b ≡ ok sp
      → sp + c.num_sp_intervals_extra * (b.sub_slot_iters / c.num_sps_sub_slot) + b.required_iters
        ≡ b.total_iters
  unfolding sp_total_iters sp_sub_slot_total_iters sp_iters ip_iters
  sp_total_iters_lem b le flag h =
      let (start, first, rest) = >>=-eq-ok (sp_sub_slot_total_iters c b) _ h in
      let (sp', point, sum) = >>=-eq-ok (sp_iters c b) _ rest in
      let (ip, infusion, base) = >>=-eq-ok (ip_iters c b) _ first in
      let (sp'', o, point', flag', inside, distance) =
        calculate_ip_iters-overflow c b.sub_slot_iters b.signage_point_index b.required_iters le
          infusion in
      let same = ok-injective (sym point ∙ point') in
      let kind = ok-injective (sym flag ∙ flag') in
      let total = uint-eq-ok 128 (start + sp') sum in
      let from_infusion = uint_sub-eq-ok 128 b.total_iters _ base in
      signage_point_sum b.overflow o ip b.sub_slot_iters _ b.required_iters kind
        (omega (arith, distance)) same total.0 from_infusion.1 from_infusion.0
