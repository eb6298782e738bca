-- ===== src/Audit/Migration/Calls.antt =====
-- The calls in the script that hardhat/tasks/audit/generate-migration.ts writes, read back from its lines.
use rayls_sovereign_contract.Base.{
  ℕ, ◌≡◌, false, Option, none, some, List, [], ◌∷◌, All, nat_beq, if◌then◌else◌,
}
use rayls_sovereign_contract.Base.Text.{Text, codes, decimal}
use rayls_sovereign_contract.Audit.MigrationFile.{OnchainStatus, current, stale, OnchainFinding}

-- `removeFunctionAllowedRoles(target, [selector], [role])`
pub record Call : Type 0 where
  pub target : Text
  pub selector : Text
  pub role : Text

abbrev and_then : {A B : Type 0} → Option A → (A → Option B) → Option B
and_then none f = none
and_then (some a) f = f a

-- What follows a text that the line begins with.
after : Text → Text → Option Text
after [] line = some line
after (c ∷ start) [] = none
after (c ∷ start) (d ∷ line) = let rest = after start line in if nat_beq c d then rest else none

abbrev cons_read : ℕ → Option (Text × Text) → Option (Text × Text)
cons_read c none = none
cons_read c (some (s, rest)) = some (c ∷ s, rest)

-- What stands before the first `mark`, and what after it.
up_to : ℕ → Text → Option (Text × Text)
up_to mark [] = none
up_to mark (c ∷ line) =
    let rest = up_to mark line in if nat_beq c mark then some ([], line) else cons_read c rest

abbrev quote : ℕ
quote = 39

-- A line of the form `  await (await manager.removeFunctionAllowedRoles('…', ['…'], […n])).wait();`
read_call : Text → Option Call
read_call line =
    and_then (after (codes "  await (await manager.removeFunctionAllowedRoles('") line) λ a.
      and_then (up_to quote a) λ target. and_then (after (codes ", ['") target.1) λ b.
        and_then (up_to quote b) λ selector. and_then (after (codes "], [") selector.1) λ c.
          and_then (up_to b'n' c) λ role.
            and_then (after (codes "])).wait();") role.1)
              λ rest. some (record { target = target.0; selector = selector.0; role = role.0 })

abbrev cons_call : Option Call → List Call → List Call
cons_call none calls = calls
cons_call (some call) calls = call ∷ calls

pub calls_of : List Text → List Call
unfolding read_call
calls_of [] = []
calls_of (line ∷ lines) = cons_call (read_call line) (calls_of lines)

-- The calls that the findings ask for.
abbrev call_for : OnchainStatus → OnchainFinding → List Call → List Call
call_for current f calls = calls
call_for stale f calls =
    record { target = f.target_address; selector = f.selector; role = decimal f.role_id } ∷ calls

pub wanted : List OnchainFinding → List Call
wanted [] = []
wanted (f ∷ fs) = call_for f.status f (wanted fs)

-- The text does not have the mark.
abbrev pub IsFree : ℕ → Text → Type 0
IsFree mark = All (λ c. nat_beq c mark ≡ false)

-- No quote in what stands between quotes.
abbrev pub IsQuotable : OnchainFinding → Type 0
IsQuotable f = IsFree quote f.target_address × IsFree quote f.selector
