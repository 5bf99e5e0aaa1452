-- ===== src/Core/ProcessInstance/Tests.antt =====
-- The identities of processes at concrete inputs.
use panopticon_agent.Prelude.{◌≡◌, refl, some, none, codes, to_string, print_digits, arith}
use panopticon_agent.Core.ProcessInstance.{field, identifying, native_exact}
use panopticon_agent.Core.ProcessInstance.Identity.{
  Facts, native, hashed_text, InRange, hashed_text-injective,
}

abbrev facts : Facts
facts = native (codes "h") (codes "b") 4 5

facts-InRange : InRange facts
unfolding to_string print_digits
facts-InRange = (omega arith, omega arith, omega arith, omega arith, omega arith, omega arith)

hashed_text-injective_example : facts ≡ facts
hashed_text-injective_example = hashed_text-injective facts facts facts-InRange facts-InRange refl

identifying_test :
    identifying (codes "h") (some (codes "b")) 4 (some 5) none (codes "etw")
    ≡ (some (hashed_text facts), native_exact)
unfolding identifying
identifying_test = refl

field_test : field (codes "abc") ≡ codes "3:abc"
unfolding field to_string print_digits
field_test = refl
