-- ===== src/Task/Context/Restore.antt =====
-- Switching back to a thread resumes it where it left off.
use nonameos.Prelude.{ℕ, ◌+◌, ◌≤◌, ◌<◌, ◌≡◌, arith, ap, ◌∙◌, add_usize, usize_mod, ◌⊎◌, inl, inr}
use nonameos.Task.Context.{Cpu, save, restore, switch_to}

-- `d` runs on with the callee-saved registers, the stack pointer and the program counter of `c`.
pub record Resumes (c d : Cpu) : Type 0 where
  pub rsp : d.rsp ≡ c.rsp
  pub rbp : d.rbp ≡ c.rbp
  pub rbx : d.rbx ≡ c.rbx
  pub r12 : d.r12 ≡ c.r12
  pub r13 : d.r13 ≡ c.r13
  pub r14 : d.r14 ≡ c.r14
  pub r15 : d.r15 ≡ c.r15
  pub rip : d.rip ≡ c.rip

-- The seven words that `save` leaves on the stack of `c`.
pub record Frame (c : Cpu) (base : ℕ) (mem : ℕ → ℕ) : Type 0 where
  pub r15 : mem base ≡ c.r15
  pub r14 : mem (base + 8) ≡ c.r14
  pub r13 : mem (base + 16) ≡ c.r13
  pub r12 : mem (base + 24) ≡ c.r12
  pub rbx : mem (base + 32) ≡ c.rbx
  pub rbp : mem (base + 40) ≡ c.rbp
  pub rip : mem (base + 48) ≡ c.rip

module _ (c : Cpu) (base : ℕ) (at : c.rsp ≡ base + 56) (fits : base + 56 < usize_mod) where
  save-rsp : (save c).rsp ≡ base
  unfolding save
  save-rsp = omega (arith, at)

  save-Frame : Frame c base (save c).mem
  unfolding save
  save-Frame = record {
    r15 = ground (arith, at);
    r14 = ground (arith, at);
    r13 = ground (arith, at);
    r12 = ground (arith, at);
    rbx = ground (arith, at);
    rbp = ground (arith, at);
    rip = ground (arith, at);
  }

pub restore-Resumes :
    (c d : Cpu) (base : ℕ)
    → c.rsp ≡ base + 56
    → base + 56 < usize_mod
    → d.rsp ≡ base
    → Frame c base d.mem
    → Resumes c (restore d)
unfolding restore
restore-Resumes c d base at fits here f = record {
  rsp = omega (arith, at, here);
  rbp = ap d.mem w4 ∙ f.rbp;
  rbx = ap d.mem w3 ∙ f.rbx;
  r12 = ap d.mem w2 ∙ f.r12;
  r13 = ap d.mem w1 ∙ f.r13;
  r14 = ap d.mem w0 ∙ f.r14;
  r15 = ap d.mem here ∙ f.r15;
  rip = ap d.mem w5 ∙ f.rip;
}
  where
    w0 : add_usize d.rsp 8 ≡ base + 8
    w0 = omega (arith, here)

    w1 : add_usize (add_usize d.rsp 8) 8 ≡ base + 16
    w1 = omega (arith, here)

    w2 : add_usize (add_usize (add_usize d.rsp 8) 8) 8 ≡ base + 24
    w2 = omega (arith, here)

    w3 : add_usize (add_usize (add_usize (add_usize d.rsp 8) 8) 8) 8 ≡ base + 32
    w3 = omega (arith, here)

    w4 : add_usize (add_usize (add_usize (add_usize (add_usize d.rsp 8) 8) 8) 8) 8 ≡ base + 40
    w4 = omega (arith, here)

    w5 :
        add_usize (add_usize (add_usize (add_usize (add_usize (add_usize d.rsp 8) 8) 8) 8) 8) 8
        ≡ base + 48
    w5 = omega (arith, here)

-- The pushes of a call of `switch_to` stay within 56 bytes below the stack pointer.
save-elsewhere :
    (d : Cpu) (base a : ℕ)
    → d.rsp ≡ base + 56
    → base + 56 < usize_mod
    → (a < base) ⊎ (base + 56 ≤ a)
    → (save d).mem a ≡ d.mem a
unfolding save
save-elsewhere d base a at fits (inl below) = ground (arith, at)
save-elsewhere d base a at fits (inr above) = ground (arith, at)

-- A thread `c` calls `switch_to`, and some time later a thread `d` switches back to the stack
-- pointer that was saved. If nobody wrote to the 56 bytes below the stack pointer of `c` meanwhile,
-- and `d` has its own 56 bytes elsewhere, both within the address space, then `c` resumes where it
-- was: same stack pointer, callee-saved registers and program counter.
pub switch_back :
    (c d : Cpu) (new_rsp base d_base : ℕ)
    → c.rsp ≡ base + 56
    → base + 56 < usize_mod
    → d.rsp ≡ d_base + 56
    → d_base + 56 < usize_mod
    → (d_base + 56 ≤ base) ⊎ (base + 56 ≤ d_base)
    → ((a : ℕ) → base ≤ a → a < base + 56 → d.mem a ≡ (switch_to new_rsp c).1.mem a)
    → Resumes c (switch_to (switch_to new_rsp c).0 d).1
unfolding switch_to restore
switch_back c d new_rsp base d_base at fits d_at d_fits apart kept =
    restore-Resumes c (record (save d) { rsp = (save c).rsp }) base at fits
      (save-rsp c base at fits)
      (record {
        r15 = word base (omega arith) (omega arith) ∙ frame.r15;
        r14 = word (base + 8) (omega arith) (omega arith) ∙ frame.r14;
        r13 = word (base + 16) (omega arith) (omega arith) ∙ frame.r13;
        r12 = word (base + 24) (omega arith) (omega arith) ∙ frame.r12;
        rbx = word (base + 32) (omega arith) (omega arith) ∙ frame.rbx;
        rbp = word (base + 40) (omega arith) (omega arith) ∙ frame.rbp;
        rip = word (base + 48) (omega arith) (omega arith) ∙ frame.rip;
      })
  where
    frame : Frame c base (save c).mem
    frame = save-Frame c base at fits

    word : (a : ℕ) → base ≤ a → a < base + 56 → (save d).mem a ≡ (save c).mem a
    word a low high = save-elsewhere d d_base a d_at d_fits (side apart) ∙ kept a low high
      where
        side : (d_base + 56 ≤ base) ⊎ (base + 56 ≤ d_base) → (a < d_base) ⊎ (d_base + 56 ≤ a)
        side (inl before) = inr (omega arith)
        side (inr behind) = inl (omega arith)
