-- ===== src/Schedulers/Groups/Writes.antt =====
-- The array with its index is a list that grows: `Holds host_count done s`.
use mathlib.Core.List.{map-append, append_assoc, append-nil}
use mathlib.Core.Path.{ap₂}
use linux_net_x.Base.{
  ℕ, zero, suc, ◌+◌, ◌-◌, ◌≤◌, ◌<◌, ◌≡◌, refl, sym, ap, ◌∙◌, List, none, some, [], ◌∷◌, ◌++◌, arith,
  map, replicate, set, set-append, length, length-map, length-append,
}
use linux_net_x.Nodes.{NodeInfo}
use linux_net_x.Schedulers.Groups.{Slots, no_slots, write, write_times}

-- The first `host_index` entries are `done`, and the rest are `None`.
pub record Holds (host_count : ℕ) (done : List NodeInfo) (s : Slots) : Type 0 where
  pub entries : s.result ≡ map some done ++ replicate (host_count - length done) none
  pub index : s.host_index ≡ length done

pub no_slots-Holds : (host_count : ℕ) → Holds host_count [] (no_slots host_count)
no_slots-Holds n = record { entries = ap (λ k. replicate k none) (omega arith); index = refl }

module _ (host_count : ℕ) where
  set-entries :
      (node : NodeInfo) (done : List NodeInfo)
      → length done < host_count
      → set (map some done ++ replicate (host_count - length done) none) (length done) (some node)
        ≡ map some (done ++ node ∷ []) ++ replicate (host_count - length (done ++ node ∷ [])) none
  set-entries node done fits =
      let m : ℕ = host_count - length done - 1 in
      let here : host_count - length done ≡ suc m = omega arith in
      let next : host_count - length (done ++ node ∷ []) ≡ m =
        omega (arith, length-append done (node ∷ [])) in
      rw (here, next, map-append some done (node ∷ []), append_assoc)
        (set-append (map some done) (length done) none (replicate m none) (some node)
          (sym (length-map some done)))

  pub write-Holds :
      (node : NodeInfo) (done : List NodeInfo) (s : Slots)
      → length done < host_count
      → Holds host_count done s
      → Holds host_count (done ++ node ∷ []) (write node s)
  unfolding write
  write-Holds node done s fits h = record {
    entries = ap₂ (λ r i. set r i (some node)) h.entries h.index ∙ set-entries node done fits;
    index = omega (arith, h.index, length-append done (node ∷ []));
  }

  pub write_times-Holds :
      (k : ℕ) (node : NodeInfo) (done : List NodeInfo) (s : Slots)
      → length done + k ≤ host_count
      → Holds host_count done s
      → Holds host_count (done ++ replicate k node) (write_times k node s)
  unfolding write_times
  write_times-Holds zero node done s fits h = rw append-nil h
  write_times-Holds (suc k) node done s fits h =
      rw (← append_assoc done (node ∷ []) (replicate k node)) (
        write_times-Holds k node (done ++ node ∷ []) (write node s)
          (omega (arith, length-append done (node ∷ []))) (write-Holds node done s (omega arith) h))
