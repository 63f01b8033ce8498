-- ===== src/Msg/Chain.antt =====
-- `MessageChain` and `MessageChainBuilder` of ricq-core/src/msg/mod.rs.
pub mod Order
use ricq.Base.{
  ℕ, zero, suc, List, [], ◌∷◌, ◌++◌, Option, none, some, Bool, true, false, if◌then◌else◌,
}
use ricq.Wire.{Wire}
use ricq.Result.{Result, ok, err, panic, and_then, map_ok}
use ricq.Msg.Message.{MessageElem, src_msg, anon_group_msg, Packages}
use ricq.Msg.Elems.{Text, is_empty, plain_text}
use ricq.Msg.RqElem.{
  Anonymous, Reply, RqElem, anonymous_elem, from_anonymous, reply_elem, from_reply, from_elem,
}

abbrev pub MessageChain : Type 0
MessageChain = List MessageElem

-- The first anonymous sender in a chain.
unfoldable pub anonymous : MessageChain → Option Anonymous
anonymous [] = none
anonymous (anon_group_msg a ∷ rest) = some (from_anonymous a)
anonymous (_ ∷ rest) = anonymous rest

-- The first reply; one without a number makes it panic.
unfoldable pub reply : MessageChain → Result (Option Reply)
reply [] = ok none
reply (src_msg r ∷ rest) = map_ok some (from_reply r)
reply (_ ∷ rest) = reply rest

abbrev pub is_some : {A : Type 0} → Option A → Bool
is_some none = false
is_some (some a) = true

-- `Vec::insert`, which panics beyond the end.
unfoldable pub insert_at : ℕ → MessageElem → MessageChain → Result MessageChain
insert_at zero e chain = ok (e ∷ chain)
insert_at (suc i) e [] = panic
insert_at (suc i) e (x ∷ chain) = map_ok (λ rest. x ∷ rest) (insert_at i e chain)

unfoldable pub with_anonymous : Anonymous → MessageChain → MessageChain
with_anonymous a chain = anonymous_elem a ∷ chain

unfoldable pub with_reply : Reply → MessageChain → Result MessageChain
with_reply r chain = insert_at (if is_some (anonymous chain) then 1 else 0) (reply_elem r) chain

-- `into_iter`, as far as it is used: it leaves replies and anonymous senders out.
unfoldable pub into_iter : ⦃w : Wire⦄ → Packages → MessageChain → Result (List RqElem)
into_iter p [] = ok []
into_iter p (src_msg r ∷ rest) = into_iter p rest
into_iter p (anon_group_msg a ∷ rest) = into_iter p rest
into_iter p (e ∷ rest) =
    let later = into_iter p rest in and_then (from_elem p e) (λ x. map_ok (λ xs. x ∷ xs) later)

pub record MessageChainBuilder : Type 0 where
  pub elems : List MessageElem
  pub buf_string : List ℕ

unfoldable pub flush : MessageChainBuilder → MessageChainBuilder
flush b =
    if is_empty b.buf_string
    then b
    else record { elems = b.elems ++ (plain_text b.buf_string ∷ []); buf_string = [] }

-- What can be pushed: a string, a text, an element with what its `push_to` adds, an anonymous
-- sender, or a reply.
pub data Pushed : Type 0 where
  string : List ℕ → Pushed
  text : Text → Pushed
  element : List MessageElem → Pushed
  anonymous_sender : Anonymous → Pushed
  quoted : Reply → Pushed

-- Whether an anonymous sender comes first.
unfoldable pub first_is_anonymous : MessageChain → Bool
first_is_anonymous (anon_group_msg a ∷ rest) = true
first_is_anonymous _ = false

-- `elems.insert(index, ...)` where the index is 1 only behind a first element.
unfoldable pub insert_reply : Reply → MessageChain → MessageChain
insert_reply r [] = reply_elem r ∷ []
insert_reply r (e ∷ rest) =
    if first_is_anonymous (e ∷ rest) then e ∷ reply_elem r ∷ rest else reply_elem r ∷ e ∷ rest

unfoldable pub push : Pushed → MessageChainBuilder → MessageChainBuilder
push (string s) b = record b { buf_string = b.buf_string ++ s }
push (text t) b = record b { buf_string = b.buf_string ++ t.content }
push (element es) b = record { elems = (flush b).elems ++ es; buf_string = (flush b).buf_string }
push (anonymous_sender a) b = record b { elems = anonymous_elem a ∷ b.elems }
push (quoted r) b = record b { elems = insert_reply r b.elems }

-- Pushes, one after the other.
abbrev pub push_all : List Pushed → MessageChainBuilder → MessageChainBuilder
push_all [] b = b
push_all (x ∷ xs) b = push_all xs (push x b)

unfoldable pub build : MessageChainBuilder → MessageChain
build b = (flush b).elems

abbrev pub new_builder : MessageChainBuilder
new_builder = record { elems = []; buf_string = [] }

abbrev pub built : List Pushed → MessageChain
built xs = build (push_all xs new_builder)
