-- ===== src/Schedule/Repair.antt =====
-- schedule.cpp, add_repair_machine and remove_repair_machines: machines go into repair and come back.
pub mod Account
pub mod Effect
use schedule_test.Base.{ℕ, ◌+◌, ◌-◌, List, [], ◌∷◌, map, if◌then◌else◌}
use schedule_test.Intervals.Interface.{Intervals}
use schedule_test.Schedule.{Schedule}
use schedule_test.Schedule.Slices.{TimeSlice}

module _ (I : Intervals) where
  -- The count of available machines is an int in the code, which can fall below 0 when machines go into
  -- repair that a job is allocated; here it stops at 0.
  pub withdraw : (added : I.Machines) → TimeSlice I → TimeSlice I
  withdraw added t = record t {
    nb_available_machines = t.nb_available_machines - I.size added;
    available_machines = I.remove t.available_machines added;
  }

  -- The schedule, and the machines that were not in repair before.
  pub add_repair_machine : I.Machines → Schedule I → Schedule I × I.Machines
  add_repair_machine machine s =
      let added = I.remove machine s.repair_machines in
      (
        record s {
          repair_machines = I.insert s.repair_machines machine;
          profile = if I.is_empty added then s.profile else map (withdraw added) s.profile;
        },
        added,
      )

  -- Machines that a job of the slice is allocated do not come back.
  pub give_back : (removed : I.Machines) → TimeSlice I → TimeSlice I
  give_back removed t =
      let removed_and_allocated = I.inter t.allocated_machines removed in
      record t {
        nb_available_machines =
            t.nb_available_machines + (I.size removed - I.size removed_and_allocated);
        available_machines = I.insert t.available_machines (I.remove removed removed_and_allocated);
      }

  -- The schedule, and the machines that are no longer in repair.
  pub remove_repair_machines : I.Machines → Schedule I → Schedule I × I.Machines
  remove_repair_machines machines s =
      let removed = I.inter s.repair_machines machines in
      (
        record s {
          repair_machines = I.remove s.repair_machines machines;
          profile = if I.is_empty removed then s.profile else map (give_back removed) s.profile;
        },
        removed,
      )
