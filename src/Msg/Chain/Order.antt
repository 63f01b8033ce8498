-- ===== src/Msg/Chain/Order.antt =====
-- `MessageChainBuilder` and the methods of `MessageChain` in ricq-core/src/msg/mod.rs, on an anonymous
-- sender and a reply among other things.
use ricq.Base.{◌≡◌, List, [], ◌∷◌, ◌++◌, All, false}
use ricq.Msg.Message.{MessageElem}
use ricq.Msg.RqElem.{Anonymous, Reply, anonymous_elem, reply_elem}
use ricq.Msg.Chain.{
  MessageChainBuilder, Pushed, string, text, element, anonymous_sender, quoted, first_is_anonymous,
}

-- What is neither an anonymous sender nor a reply; no element is written as an anonymous sender.
abbrev pub IsOther : Pushed → Type 0
IsOther (string s) = Unit {0}
IsOther (text t) = Unit {0}
IsOther (element es) = All (λ e. first_is_anonymous (e ∷ []) ≡ false) es
IsOther (anonymous_sender a) = ⊥
IsOther (quoted r) = ⊥

-- A builder with elements before those that are there.
abbrev behind : List MessageElem → MessageChainBuilder → MessageChainBuilder
behind es b = record { elems = es ++ b.elems; buf_string = b.buf_string }

module _ (a : Anonymous) (r : Reply) (xs ys zs : List Pushed) (hx : All IsOther xs)
    (hy : All IsOther ys) (hz : All IsOther zs) where
  abbrev heads : List MessageElem
  heads = anonymous_elem a ∷ reply_elem r ∷ []
