-- ===== src/Lb/Signals/Deadlock.antt =====
-- Where the two goroutines come to a halt.
use kube_loxilb.Base.{
  Bool, Bool-cases, List, String, [], arith, false, inl, inr, refl, suc, true, zero, ℕ, ◌↔◌, ◌∷◌,
  ◌≡◌, ◌⊎◌,
}
use kube_loxilb.Base.Assoc.{Assoc, insert}
use kube_loxilb.Lb.Signals.{
  Adder, Loop, Owner, Reachable, Step, System, adder_owns, after, at_start, enter_name, finish,
  free, known, leave_name, loop_owns, naming, outside, sending, set_known, set_new, signal,
  updating, waiting,
}
use kube_loxilb.Net.{IpAddr}

-- The lock is held by the one that is in its critical section, and by no other.
abbrev LockOf : Adder → Loop → Owner → Type 0
LockOf outside waiting o = o ≡ free
LockOf outside (updating n) o = o ≡ free
LockOf outside (naming n) o = o ≡ loop_owns
LockOf sending (naming n) o = ⊥
LockOf sending waiting o = o ≡ adder_owns
LockOf sending (updating n) o = o ≡ adder_owns

pub Consistent : System → Type 0
Consistent s = LockOf s.adder s.loop s.owner

Step-Consistent : (s t : System) → Step s t → Consistent s → Consistent t
unfolding Consistent
Step-Consistent s t (set_known waiting insts name ip rest h) c = c
Step-Consistent s t (set_known (updating n) insts name ip rest h) c = c
Step-Consistent s t (set_known (naming n) insts name ip rest h) c = c
Step-Consistent s t (set_new waiting insts name ip rest h) c = refl
Step-Consistent s t (set_new (updating n) insts name ip rest h) c = refl
Step-Consistent s t (set_new (naming n) insts name ip rest h) c = cc
Step-Consistent s t (signal n insts rest) c = refl
Step-Consistent s t (enter_name n outside insts rest) c = refl
Step-Consistent s t (enter_name n sending insts rest) c = cc
Step-Consistent s t (leave_name n o outside insts rest) c = refl
Step-Consistent s t (leave_name n o sending insts rest) c = absurd c
Step-Consistent s t (finish o outside insts rest) c = c
Step-Consistent s t (finish o sending insts rest) c = c

Reachable-Consistent :
    (insts : Assoc IpAddr) (calls : List (String × IpAddr)) (s : System)
    → Reachable insts calls s
    → Consistent s
unfolding Consistent
Reachable-Consistent insts calls s at_start = refl
Reachable-Consistent insts calls s (after r t before step) =
    Step-Consistent r t step (Reachable-Consistent insts calls r before)

-- All calls are made and the loop waits; or the one that sends holds the lock that the loop waits for.
pub data Halted : System → Type 0 where
  all_done :
      (insts : Assoc IpAddr)
      → Halted
          (record { owner = free; adder = outside; loop = waiting; insts = insts; pending = [] })
  deadlocked :
      (n : ℕ) (insts : Assoc IpAddr) (rest : List (String × IpAddr))
      → Halted (record {
        owner = adder_owns;
        adder = sending;
        loop = updating (suc n);
        insts = insts;
        pending = rest;
      })

abbrev CanStep : System → Type 0
CanStep s = (t : System) × Step s t

next_call :
    (loop : Loop) (insts : Assoc IpAddr) (name : String) (ip : IpAddr)
    (rest : List (String × IpAddr))
    → CanStep (record {
      owner = free;
      adder = outside;
      loop = loop;
      insts = insts;
      pending = (name, ip) ∷ rest;
    })
next_call loop insts name ip rest = elim (Bool-cases (known name insts)) [
  | inl e ↦ (_, set_known loop insts name ip rest e)
  | inr e ↦ (_, set_new loop insts name ip rest e)
]

progress :
    (o : Owner) (a : Adder) (l : Loop) (insts : Assoc IpAddr) (rest : List (String × IpAddr))
    → LockOf a l o
    → let s : System = record { owner = o; adder = a; loop = l; insts = insts; pending = rest } in
      CanStep s ⊎ Halted s
progress free outside waiting insts [] c = inr (all_done insts)
progress free outside waiting insts ((name, ip) ∷ rest) c =
    inl (next_call waiting insts name ip rest)
progress adder_owns outside waiting insts rest c = absurd (ground arith)
progress loop_owns outside waiting insts rest c = absurd (ground arith)
progress o a (updating zero) insts rest c = inl (_, finish o a insts rest)
progress o a (naming n) insts rest c = inl (_, leave_name n o a insts rest)
progress free outside (updating (suc n)) insts rest c = inl (_, enter_name n outside insts rest)
progress adder_owns outside (updating (suc n)) insts rest c = absurd (ground arith)
progress loop_owns outside (updating (suc n)) insts rest c = absurd (ground arith)
progress adder_owns sending waiting insts rest c = inl (_, signal zero insts rest)
progress free sending waiting insts rest c = absurd (ground arith)
progress loop_owns sending waiting insts rest c = absurd (ground arith)
progress adder_owns sending (updating (suc n)) insts rest c = inr (deadlocked n insts rest)
progress free sending (updating (suc n)) insts rest c = absurd (ground arith)
progress loop_owns sending (updating (suc n)) insts rest c = absurd (ground arith)

-- The test for the two kinds of states.
abbrev is_halted : Owner → Adder → Loop → List (String × IpAddr) → Bool
is_halted free outside waiting [] = true
is_halted adder_owns sending (updating (suc n)) rest = true
is_halted _ _ _ _ = false

Step-is_halted : (s t : System) → Step s t → is_halted s.owner s.adder s.loop s.pending ≡ false
Step-is_halted s t (set_known waiting insts name ip rest h) = refl
Step-is_halted s t (set_known (updating n) insts name ip rest h) = refl
Step-is_halted s t (set_known (naming n) insts name ip rest h) = refl
Step-is_halted s t (set_new waiting insts name ip rest h) = refl
Step-is_halted s t (set_new (updating n) insts name ip rest h) = refl
Step-is_halted s t (set_new (naming n) insts name ip rest h) = refl
Step-is_halted s t (signal n insts rest) = refl
Step-is_halted s t (enter_name n outside insts rest) = refl
Step-is_halted s t (enter_name n sending insts rest) = refl
Step-is_halted s t (leave_name n o a insts rest) = ground arith
Step-is_halted s t (finish o a insts rest) = ground arith

Halted-is_halted : (s : System) → Halted s → is_halted s.owner s.adder s.loop s.pending ≡ true
Halted-is_halted s (all_done insts) = refl
Halted-is_halted s (deadlocked n insts rest) = refl

Halted-stays : (s t : System) → Halted s → Step s t → ⊥
Halted-stays s t h step =
    let x = Halted-is_halted s h in let y = Step-is_halted s t step in ground (arith, x, y)

-- From any start, the two goroutines come to a halt in two kinds of states only, and in these no step
-- is possible: all calls are made and the loop waits for signals; or the caller of AddLoxiInstAddr
-- sends while it holds the lock that the loop waits for.
pub Reachable-Halted :
    (insts : Assoc IpAddr) (calls : List (String × IpAddr)) (s : System)
    → Reachable insts calls s
    → ((t : System) → Step s t → ⊥) ↔ Halted s
unfolding Consistent
Reachable-Halted insts calls s r = (
  λ stuck.
      elim (progress s.owner s.adder s.loop s.insts s.pending
        (Reachable-Consistent insts calls s r)) [
          | inl (t, step) ↦ absurd (stuck t step)
          | inr h ↦ h
        ],
  λ h t step. Halted-stays s t h step,
)

-- Two calls with new names can end in the second kind, whatever the number of names that the first
-- signal makes the loop generate, if there is one.
pub deadlock-Reachable :
    (insts : Assoc IpAddr) (a b : String) (ip jp : IpAddr) (rest : List (String × IpAddr)) (n : ℕ)
    → known a insts ≡ false
    → known b (insert a ip insts) ≡ false
    → Reachable insts ((a, ip) ∷ (b, jp) ∷ rest) (record {
      owner = adder_owns;
      adder = sending;
      loop = updating (suc n);
      insts = insert b jp (insert a ip insts);
      pending = rest;
    })
deadlock-Reachable insts a b ip jp rest n ha hb =
    after _ _
      (after _ _ (after _ _ at_start (set_new waiting insts a ip ((b, jp) ∷ rest) ha))
        (signal (suc n) (insert a ip insts) ((b, jp) ∷ rest)))
      (set_new (updating (suc n)) (insert a ip insts) b jp rest hb)
