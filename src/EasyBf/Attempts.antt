-- ===== src/EasyBf/Attempts.antt =====
-- easy_bf.cpp: what an attempt to backfill a job of the queue keeps.
use schedule_test.Base.{
  ℕ, ◌+◌, ◌≤◌, ◌≡◌, refl, ◌∙◌, List, [], ◌∷◌, Option, none, some, true, false, arith, ◌==◌, ◌&&◌,
  ◌||◌, Bool-cases, inl, inr, subst, ==_iff,
}
use schedule_test.Intervals.Interface.{Intervals, IntervalLaws}
use schedule_test.Workload.{Job}
use schedule_test.Queue.{SortableJob, SortableJobOrder, first_job_or_nullptr, remove_job}
use schedule_test.Queue
use schedule_test.Queue.Sort.{IsSorted}
use schedule_test.Queue.Entries.{Each}
use schedule_test.Queue.Distinct.{Unlisted, SameFirst, contains_job-Each, Fewer}
use schedule_test.Schedule.{Schedule, contains_job}
use schedule_test.EasyBf.{State, same_pointer}
use schedule_test.EasyBf.Planning.{Fits}
use schedule_test.EasyBf.Keeping.{Other}
use schedule_test.EasyBf.Backfill.{Backfilled}
use schedule_test.EasyBf.Start.{Waits, Undisturbed, Ordered, Served, Served-taken}

pub same_pointer-Other : (j : Job) (o : Option Job) → same_pointer (some j) o ≡ false → Other j o
same_pointer-Other j none h = tt
same_pointer-Other j (some k) h = h

pub Other-some : (j k : Job) (o : Option Job) → o ≡ some k → Other j o → (j.id == k.id) ≡ false
Other-some j k o is other = (rw is at other)

module _ (I : Intervals) where
  pub Waits-contained :
      (j : Job) (o : Option Job) (s : Schedule I) (qs : List SortableJob)
      → Queue.contains_job j qs ≡ true
      → Other j o
      → Each (Waits I o s) qs
      → contains_job I j.id s ≡ false
  Waits-contained j none s qs there other all =
      contains_job-Each (λ i. Unit {0} → contains_job I i s ≡ false) j qs there all tt
  Waits-contained j (some k) s qs there other all =
      contains_job-Each (λ i. (i == k.id) ≡ false → contains_job I i s ≡ false) j qs there all other

  -- The other jobs wait as before.
  Waits-after :
      (j : Job) (o : Option Job) (s u : Schedule I) (qs : List SortableJob)
      → ((id : ℕ) → contains_job I id u ≡ (true && j.id == id || contains_job I id s))
      → Unlisted j.id qs
      → Each (Waits I o s) qs
      → Each (Waits I o u) qs
  Waits-after j o s u [] contains new all = tt
  Waits-after j o s u (q ∷ qs) contains new all = (
    λ other. ground (arith, contains q.job.id, new.0, all.0 other),
    Waits-after j o s u qs contains (new.1) (all.1),
  )

  Waits-same :
      (o : Option Job) (s u : Schedule I) (qs : List SortableJob)
      → ((id : ℕ) → contains_job I id u ≡ contains_job I id s)
      → Each (Waits I o s) qs
      → Each (Waits I o u) qs
  Waits-same o s u [] contains all = tt
  Waits-same o s u (q ∷ qs) contains all =
      (λ other. contains q.job.id ∙ all.0 other, Waits-same o s u qs contains (all.1))

module _ (I : Intervals) (n longest h date : ℕ) where
  -- From `s` to a state with the same priority job: who is in the schedule stays there and holds what
  -- it held, and so does who is not in the queue.
  abbrev pub Tried : (s u : State I) → Type 0
  Tried s u = record {
    ordered : Ordered I n longest h date u;
    first : SameFirst s.queue u.queue;
    platform : u.nb_machines ≡ s.nb_machines;
    reserved :
        (id : ℕ)
        → contains_job I id s.schedule ≡ true
        → (contains_job I id u.schedule ≡ true) × Undisturbed I id s.schedule u.schedule;
    steady :
        (id : ℕ)
        → Unlisted id s.queue
        → Unlisted id u.queue × Undisturbed I id s.schedule u.schedule;
    in_order : (order : SortableJobOrder) → IsSorted order s.queue → IsSorted order u.queue;
    serves : (k : Job) → Served I k s.queue s.decisions → Served I k u.queue u.decisions;
  }

  pub Tried-nothing : (s : State I) → Ordered I n longest h date s → Tried s s
  Tried-nothing s ordered = record {
    ordered = ordered;
    first = refl;
    platform = refl;
    reserved = λ id there. (there, λ d i. refl);
    steady = λ id new. (new, λ d i. refl);
    in_order = λ order sorted. sorted;
    serves = λ k served. served;
  }

  pub Tried-then : (s t u : State I) → Tried s t → Tried t u → Tried s u
  Tried-then s t u x y = record {
    ordered = y.ordered;
    first = y.first ∙ x.first;
    platform = y.platform ∙ x.platform;
    reserved = λ id there.
        let (stays, same) = x.reserved id there in
        let (still, alike) = y.reserved id stays in (still, λ d i. alike d i ∙ same d i);
    steady = λ id new.
        let (out, same) = x.steady id new in
        let (still, alike) = y.steady id out in (still, λ d i. alike d i ∙ same d i);
    in_order = λ order sorted. y.in_order order (x.in_order order sorted);
    serves = λ k served. y.serves k (x.serves k served);
  }

module _ (I : Intervals) (L : IntervalLaws I) (second n longest h date : ℕ)
    (upto : date + (longest + longest + longest) ≤ h) where
  pub started-Tried :
      (s u : State I) (j : Job) (rs : List SortableJob)
      → Ordered I n longest h date s
      → Queue.contains_job j s.queue ≡ true
      → contains_job I j.id s.schedule ≡ false
      → Backfilled I L second n longest h date (first_job_or_nullptr s.queue) s j (u, true)
      → Fewer j s.queue rs
      → Each (Fits n longest) rs
      → Each (Waits I (first_job_or_nullptr s.queue) s.schedule) rs
      → SameFirst s.queue rs
      → Tried I n longest h date s (record u { queue = rs })
  started-Tried s u j rs ordered there new (plan, outcome, alone)
        (distinct, gone, out, after, in_order, others) fits waits first =
      let o = first_job_or_nullptr s.queue in
      record {
        ordered = record {
          plan = rw first plan;
          fits = fits;
          distinct = distinct;
          waits = rw first (Waits-after I j o s.schedule u.schedule rs alone.contains gone waits);
        };
        first = first;
        platform = alone.platform;
        reserved = λ id contained. elim (Bool-cases (j.id == id)) [
          | inl its ↦ absurd (
              cc (
                subst (λ k. contains_job I k s.schedule ≡ false) ((==_iff j.id id).0 its) new,
                contained,
              ))
          | inr differ ↦ (ground (arith, alone.contains id), λ d i. alone.others id d i differ)
        ];
        steady = λ id unlisted. (
          out id unlisted,
          λ d i.
              alone.others id d i
                (contains_job-Each (λ i. (i == id) ≡ false) j s.queue there unlisted),
        );
        in_order = in_order;
        serves = λ k served.
            rw (outcome.1.sent)
              (Served-taken I k j s.queue rs (outcome.0) date s.decisions (others k) served);
      }

  pub stays-Tried :
      (s u : State I) (j : Job)
      → Ordered I n longest h date s
      → Backfilled I L second n longest h date (first_job_or_nullptr s.queue) s j (u, false)
      → Tried I n longest h date s u
  stays-Tried s u j ordered (plan, outcome, alone) =
      let o = first_job_or_nullptr s.queue in
      record {
        ordered = record {
          plan = rw alone.queue plan;
          fits = rw alone.queue ordered.fits;
          distinct = rw alone.queue ordered.distinct;
          waits =
              rw alone.queue
                (Waits-same I o s.schedule u.schedule s.queue alone.contains ordered.waits);
        };
        first = rw alone.queue refl;
        platform = alone.platform;
        reserved = λ id there. (alone.contains id ∙ there, λ d i. outcome.held id d i);
        steady = λ id new. (rw alone.queue new, λ d i. outcome.held id d i);
        in_order = λ order sorted. rw alone.queue sorted;
        serves = λ k served. rw (alone.queue, outcome.sent) served;
      }
