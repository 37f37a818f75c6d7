-- ===== src/Vm/Execute/Arithmetic.antt =====
-- Multiplication and division by `Cpu::execute` of common/src/vm.rs, from the word of an instruction
-- to the register with its result.
use vanadium.Prelude.{
  ℕ, ◌+◌, ◌*◌, ◌^◌, ◌<◌, ◌≡◌, ◌⊎◌, ◌∙◌, refl, arith, length, set, get_or-set_self, get_or-set_ne,
  Option,
}
use vanadium.Word.{IsU32, wrapping_mul}
use vanadium.Vm.Memory.{PagedMemory}
use vanadium.Vm.Cpu.{reg}
use vanadium.Vm.Alu
use vanadium.Vm.Alu.Unsigned.{mulhu-wrapping_mul}
use vanadium.Vm.Alu.Division.{IsByZero, IsQuotient, IsSignedQuotient, div-IsSignedQuotient}
use vanadium.Vm.Arm.{State, binary}
use vanadium.Vm.Execute.{execute_op, execute, finish, dispatch, Handler}
use vanadium.Riscv.Op.{Op}
use vanadium.Riscv.Decode.Encode.{encode, IsEncodable}
use vanadium.Riscv.Decode.RoundTrip.{decode-encode}

-- Three registers, of which the first takes a result: it is not the register 0.
pub record AreRegisters (rd rs1 rs2 : ℕ) : Type 0 where
  pub not_zero : 0 < rd
  pub rd_small : rd < 32
  pub rs1_small : rs1 < 32
  pub rs2_small : rs2 < 32

module _ (P : PagedMemory) (E : Type 0) {H : Type 0} (handler : Option (Handler P E H))
    (cpu : State P E) (h : H) where
  -- The register `rd` after the word of an instruction was executed.
  abbrev pub result : ℕ → Op → ℕ
  result rd op = reg (execute P E (encode op) handler cpu h).1 rd

  module _ (rd rs1 rs2 : ℕ) (r : AreRegisters rd rs1 rs2) (sized : length cpu.regs ≡ 32) where
    finish-binary :
        (f : ℕ → ℕ → ℕ)
        → reg (finish P E (let (o, c) = binary P E 4 f rd rs1 rs2 cpu in (o, c, h))).1 rd
          ≡ f (reg cpu rs1) (reg cpu rs2)
    unfolding finish binary
    finish-binary f =
        get_or-set_ne (set cpu.regs rd (f (reg cpu rs1) (reg cpu rs2))) 0 rd 0 0
          (λ e. omega (arith, r.not_zero))
        ∙ get_or-set_self cpu.regs rd (f (reg cpu rs1) (reg cpu rs2)) 0 (omega (arith, r.rd_small))

    -- An instruction of three registers that is decoded to `op`, whose arm is `f`.
    result-binary :
        (op : Op) (f : ℕ → ℕ → ℕ)
        → IsEncodable op
        → dispatch P E op 4 handler cpu h
          ≡ (let (o, c) = binary P E 4 f rd rs1 rs2 cpu in (o, c, h))
        → result rd op ≡ f (reg cpu rs1) (reg cpu rs2)
    unfolding execute
    result-binary op f e arm = rw (decode-encode op e, arm) (finish-binary f)

    registers : (rd < 32) × (rs1 < 32) × (rs2 < 32)
    registers = (r.rd_small, r.rs1_small, r.rs2_small)

    -- On a CPU with 32 registers, whose operands are 32-bit words: the words that encode MULHU and
    -- MUL of the same registers, executed, put the upper and the lower half of the product of the
    -- operands into their destination, which is not the register 0.
    pub execute-mul :
        IsU32 (reg cpu rs1)
        → IsU32 (reg cpu rs2)
        → result rd (Op.mulhu rd rs1 rs2) * 2 ^ 32 + result rd (Op.mul rd rs1 rs2)
          ≡ reg cpu rs1 * reg cpu rs2
    unfolding dispatch execute_op
    execute-mul a b =
        let high = result-binary (Op.mulhu rd rs1 rs2) Alu.mulhu registers refl in
        let low = result-binary (Op.mul rd rs1 rs2) wrapping_mul registers refl in
        omega (arith, high, low, mulhu-wrapping_mul (reg cpu rs1) (reg cpu rs2) a b)

    -- On a CPU with 32 registers, whose operands are 32-bit words: the words that encode DIV and
    -- REM, and DIVU and REMU, of the same registers, executed, put into their destination, which is
    -- not the register 0, the signed and the unsigned quotient and remainder of the operands, where
    -- only the quotient of -2^31 by -1 wraps around, and for a divisor 0 the quotient with all bits
    -- set and the dividend.
    pub execute-div :
        IsU32 (reg cpu rs1)
        → IsU32 (reg cpu rs2)
        → let a = reg cpu rs1 in
          let b = reg cpu rs2 in
          let q = result rd (Op.div rd rs1 rs2) in
          let t = result rd (Op.rem rd rs1 rs2) in
          let qu = result rd (Op.divu rd rs1 rs2) in
          let tu = result rd (Op.remu rd rs1 rs2) in
          (IsByZero a b q t ⊎ IsSignedQuotient a b q t)
          × (IsByZero a b qu tu ⊎ IsQuotient a b qu tu)
    unfolding dispatch execute_op
    execute-div a b =
        rw
          (
            result-binary (Op.div rd rs1 rs2) Alu.div registers refl,
            result-binary (Op.rem rd rs1 rs2) Alu.rem registers refl,
            result-binary (Op.divu rd rs1 rs2) Alu.divu registers refl,
            result-binary (Op.remu rd rs1 rs2) Alu.remu registers refl,
          )
          (div-IsSignedQuotient (reg cpu rs1) (reg cpu rs2) a b)
