-- ===== src/Task/Tests.antt =====
-- A switch away from a thread and back on two stacks.
use nonameos.Prelude.{inl, arith, refl}
use nonameos.Task.Context.{Cpu, switch_to}
use nonameos.Task.Context.Restore.{Resumes, switch_back}

abbrev first : Cpu
first = record {
  rsp = 0x9038;
  rbp = 1;
  rbx = 2;
  r12 = 3;
  r13 = 4;
  r14 = 5;
  r15 = 6;
  rip = 0x100400;
  mem = λ a. 0;
}

abbrev away : Cpu
away = (switch_to 0x7000 first).1

abbrev second : Cpu
second = record away { rsp = 0x8038; rbp = 7; rip = 0x100800 }

switch_back_example : Resumes first (switch_to (switch_to 0x7000 first).0 second).1
switch_back_example =
    switch_back first second 0x7000 0x9000 0x8000 refl (omega arith) refl (omega arith)
      (inl (omega arith)) (λ a low high. refl)
