-- ===== src/Lb/Signals.antt =====
-- The lock of the manager and the unbuffered channel instAddrApplyCh of loadbalancer.go: AddLoxiInstAddr
-- against the loop that handles the signals by updateAllLoxiLBServiceStatus and genExtIPName.
pub mod Deadlock
use kube_loxilb.Base.{Bool, List, String, false, none, some, suc, true, zero, ℕ, ◌∷◌, ◌≡◌}
use kube_loxilb.Base.Assoc.{Assoc, insert, lookup}
use kube_loxilb.Net.{IpAddr}

pub data Owner : Type 0 where
  free adder_owns loop_owns : Owner

-- AddLoxiInstAddr is not running, or it holds the lock and is about to send.
pub data Adder : Type 0 where
  outside sending : Adder

-- The loop waits for a signal, or it updates the services, with the calls of genExtIPName left, or it is
-- in such a call, with the calls left after it.
pub data Loop : Type 0 where
  waiting : Loop
  updating naming : ℕ → Loop

-- `pending` are the calls of AddLoxiInstAddr to come, which one goroutine makes in order.
pub record System : Type 0 where
  pub owner : Owner
  pub adder : Adder
  pub loop : Loop
  pub insts : Assoc IpAddr
  pub pending : List (String × IpAddr)

abbrev pub known : String → Assoc IpAddr → Bool
known name insts = elim (lookup name insts) [ none ↦ false | some _ ↦ true ]

pub data Step : System → System → Type 0 where
  -- A known name is given its address, under the lock and without a signal.
  set_known :
      (loop : Loop) (insts : Assoc IpAddr) (name : String) (ip : IpAddr)
      (rest : List (String × IpAddr))
      → known name insts ≡ true
      → Step
          (record {
            owner = free;
            adder = outside;
            loop = loop;
            insts = insts;
            pending = (name, ip) ∷ rest;
          })
          (record {
            owner = free;
            adder = outside;
            loop = loop;
            insts = insert name ip insts;
            pending = rest;
          })
  -- A new name is entered, and the signal is to be sent before the lock is given up.
  set_new :
      (loop : Loop) (insts : Assoc IpAddr) (name : String) (ip : IpAddr)
      (rest : List (String × IpAddr))
      → known name insts ≡ false
      → Step
          (record {
            owner = free;
            adder = outside;
            loop = loop;
            insts = insts;
            pending = (name, ip) ∷ rest;
          })
          (record {
            owner = adder_owns;
            adder = sending;
            loop = loop;
            insts = insert name ip insts;
            pending = rest;
          })
  -- The channel has no buffer: the send and the receive are one step. The number of names to generate
  -- depends on the services of the cluster.
  signal :
      (n : ℕ) (insts : Assoc IpAddr) (rest : List (String × IpAddr))
      → Step
          (record {
            owner = adder_owns;
            adder = sending;
            loop = waiting;
            insts = insts;
            pending = rest;
          })
          (record {
            owner = free;
            adder = outside;
            loop = updating n;
            insts = insts;
            pending = rest;
          })
  -- genExtIPName takes the lock and gives it up.
  enter_name :
      (n : ℕ) (a : Adder) (insts : Assoc IpAddr) (rest : List (String × IpAddr))
      → Step
          (record {
            owner = free;
            adder = a;
            loop = updating (suc n);
            insts = insts;
            pending = rest;
          })
          (record { owner = loop_owns; adder = a; loop = naming n; insts = insts; pending = rest })
  leave_name :
      (n : ℕ) (o : Owner) (a : Adder) (insts : Assoc IpAddr) (rest : List (String × IpAddr))
      → Step
          (record { owner = o; adder = a; loop = naming n; insts = insts; pending = rest })
          (record { owner = free; adder = a; loop = updating n; insts = insts; pending = rest })
  -- All services are updated.
  finish :
      (o : Owner) (a : Adder) (insts : Assoc IpAddr) (rest : List (String × IpAddr))
      → Step
          (record { owner = o; adder = a; loop = updating zero; insts = insts; pending = rest })
          (record { owner = o; adder = a; loop = waiting; insts = insts; pending = rest })

abbrev pub start : Assoc IpAddr → List (String × IpAddr) → System
start insts calls = record {
  owner = free;
  adder = outside;
  loop = waiting;
  insts = insts;
  pending = calls;
}

pub data Reachable (insts : Assoc IpAddr) (calls : List (String × IpAddr)) : System → Type 0 where
  at_start : Reachable insts calls (start insts calls)
  after : (s t : System) → Reachable insts calls s → Step s t → Reachable insts calls t
