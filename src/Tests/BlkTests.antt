-- ===== src/Tests/BlkTests.antt =====
-- A device of two slots, the second of which carries a request of ring 3.
use plinth_os.Base.{
  ℕ, ◌+◌, ◌-◌, ◌*◌, ◌%◌, ◌^◌, ◌<◌, ◌≡◌, ◌⊎◌, refl, false, none, some, [], ◌∷◌, arith,
}
use plinth_os.Capability.{is_none}
use plinth_os.Blk.{
  Inflights, Completion, Used, max_slots, desc_per_req, new, route_of, submit, complete,
  drain_completions,
}
use plinth_os.Blk.Pool.{IsPool, new-IsPool}
use plinth_os.Blk.Submit.{Submitted, submit-cases, submitted, submitted-IsPool}
use plinth_os.Blk.Complete.{Routed, NotLive, complete-cases}
use plinth_os.Blk.Drain.{drain_all, drain_completions-drain_all}

abbrev request : Completion
request = Completion.to_ring 3 77

abbrev device : Inflights
device = submitted (new 2) request

device-IsPool : IsPool device
unfolding new
device-IsPool = submitted-IsPool (new 2) request (new-IsPool 2) (omega arith)

-- The device reports the request, and then the same index once more.
abbrev reports : Used
reports = record { head_at = λ i. 3; status_of = λ slot. 0 }

drained :
    drain_completions max_slots reports 8 device 0 2 ≡ ((complete device 3).0, (request, 0) ∷ [])
unfolding drain_completions new plinth_os.Blk.drain_loop complete plinth_os.Blk.slot_of
    plinth_os.Blk.numbered
drained = refl

submit-cases_example :
    ((slot : ℕ) × (d' : Inflights) × (submit device request ≡ (d', some (slot * desc_per_req)))
      × Submitted device d' request slot)
    ⊎ ((submit device request ≡ (device, none))
        × ((s : ℕ) → s < device.slots → is_none (route_of device s) ≡ false))
submit-cases_example = submit-cases device request device-IsPool

complete-cases_example : Routed device 3 ⊎ ((complete device 3 ≡ (device, none)) × NotLive device 3)
complete-cases_example = complete-cases device 3 device-IsPool

drain_completions-drain_all_example :
    drain_completions max_slots reports 8 device 0 2
    ≡ drain_all reports 8 device 0 [] ((2 + 2 ^ 16 - 0) % 2 ^ 16)
drain_completions-drain_all_example = drain_completions-drain_all reports 8 device 0 2 device-IsPool
