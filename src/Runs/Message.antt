-- ===== src/Runs/Message.antt =====
-- Runs of the model of ricq-core/src/msg.
use ricq.Base.{◌≡◌, [], ◌∷◌, All, replicate, some}
use ricq.Msg.Fragment.{MessageChain, text, other_elem, fragment}
use ricq.Msg.Fragment.Content.{content, all_content, all_content-fragment}
use ricq.Msg.Fragment.Sizes.{IsFragment, fragment-IsFragment}
use ricq.Runs.Crypto.{hello}

-- A short text, a long one, and two other elements.
abbrev mixed : MessageChain
mixed =
    text (record { str = some hello; other_fields = [] })
    ∷ other_elem hello
    ∷ text (record { str = some (replicate 85 97); other_fields = hello })
    ∷ other_elem []
    ∷ []

all_content-fragment_example : all_content (fragment mixed) ≡ content mixed
all_content-fragment_example = all_content-fragment mixed

fragment-IsFragment_example : All IsFragment (fragment mixed)
fragment-IsFragment_example = fragment-IsFragment mixed
