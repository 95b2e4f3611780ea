-- ===== src/Task/Context.antt =====
-- The assembly routine `switch_to` of kernel/src/scheduler.rs on a machine with a stack in memory.
pub mod Restore
use nonameos.Prelude.{ℕ, Bool, ◌==◌, if◌then◌else◌, add_usize, sub_usize}

-- The registers that the routine saves, the stack pointer, the program counter, and memory by the
-- addresses of its 8-byte words.
pub record Cpu : Type 0 where
  pub rsp : ℕ
  pub rbp : ℕ
  pub rbx : ℕ
  pub r12 : ℕ
  pub r13 : ℕ
  pub r14 : ℕ
  pub r15 : ℕ
  pub rip : ℕ
  pub mem : ℕ → ℕ

abbrev pub store : (ℕ → ℕ) → ℕ → ℕ → ℕ → ℕ
store mem addr v a = if addr == a then v else mem a

unfoldable pub push : ℕ → Cpu → Cpu
push v c = record c { rsp = sub_usize c.rsp 8; mem = store c.mem (sub_usize c.rsp 8) v }

-- The word on top of the stack, which `pop` takes into a register.
abbrev pub top : Cpu → ℕ
top c = c.mem c.rsp

unfoldable pub drop_top : Cpu → Cpu
drop_top c = record c { rsp = add_usize c.rsp 8 }

-- `call`, then `push rbp` to `push r15`.
unfoldable pub save : Cpu → Cpu
unfolding push
save c = push c.r15 (push c.r14 (push c.r13 (push c.r12 (push c.rbx (push c.rbp (push c.rip c))))))

-- `pop r15` to `pop rbp`, then `ret`.
unfoldable pub restore : Cpu → Cpu
unfolding drop_top
restore c =
    let c1 = drop_top (record c { r15 = top c }) in
    let c2 = drop_top (record c1 { r14 = top c1 }) in
    let c3 = drop_top (record c2 { r13 = top c2 }) in
    let c4 = drop_top (record c3 { r12 = top c3 }) in
    let c5 = drop_top (record c4 { rbx = top c4 }) in
    let c6 = drop_top (record c5 { rbp = top c5 }) in drop_top (record c6 { rip = top c6 })

-- A call of `switch_to`: the value that goes to `*old_rsp`, and the machine after `ret`.
unfoldable pub switch_to : ℕ → Cpu → ℕ × Cpu
unfolding save restore
switch_to new_rsp c = let saved = save c in (saved.rsp, restore (record saved { rsp = new_rsp }))
