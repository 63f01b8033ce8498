-- ===== src/Client/Lists/Pages.antt =====
-- `get_group_list` and `get_group_member_list` of ricq/src/client/api/group.rs against a server that
-- keeps its answers in pages.
use ricq.Base.{
  ℕ, suc, ◌≡◌, refl, sym, ap, ◌∙◌, List, [], ◌∷◌, ◌++◌, append-nil, append_assoc, length, some,
  false, ◌==◌,
}
use ricq.Result.{Result, ok}
use ricq.Structs.{GroupInfo, GroupMemberInfo, GroupListResponse, GroupMemberListResponse}
use ricq.Client.Lists.{
  is_empty, take_groups, group_loop, get_group_list, set_group_code, take_members, member_loop,
  get_group_member_list,
}

-- What a server answers from a round on: the request that it expects, and the page with where the next
-- one is.
abbrev pub GivesGroups :
    (ℕ → List ℕ → Result GroupListResponse)
    → ℕ
    → List ℕ
    → List GroupInfo
    → List (List ℕ × List GroupInfo)
    → Type 0
GivesGroups ask round cookie page [] =
    ask round cookie ≡ ok (record { groups = page; vec_cookie = [] })
GivesGroups ask round cookie page ((next, more) ∷ rest) =
    (ask round cookie ≡ ok (record { groups = page; vec_cookie = next }))
    × (is_empty next ≡ false)
    × GivesGroups ask (suc round) next more rest

abbrev pub concat_pages : {A B : Type 0} → List (A × List B) → List B
concat_pages [] = []
concat_pages ((a, page) ∷ rest) = page ++ concat_pages rest

group_loop-pages :
    (ask : ℕ → List ℕ → Result GroupListResponse) (round : ℕ) (cookie : List ℕ)
    (page before : List GroupInfo) (rest : List (List ℕ × List GroupInfo))
    → GivesGroups ask round cookie page rest
    → group_loop ask (suc (length rest)) round cookie before
      ≡ some (ok (before ++ (page ++ concat_pages rest)))
unfolding group_loop take_groups
group_loop-pages ask round cookie page before [] h = rw (h, append-nil page)
group_loop-pages ask round cookie page before ((next, more) ∷ rest) h =
    rw (h.0, h.1)
      (group_loop-pages ask (suc round) next more (before ++ page) rest h.2
        ∙ ap (λ x. some (ok x)) (append_assoc before page (more ++ concat_pages rest)))

get_group_list-returns :
    (ask : ℕ → List ℕ → Result GroupListResponse) (page : List GroupInfo)
    (rest : List (List ℕ × List GroupInfo))
    → GivesGroups ask 0 [] page rest
    → get_group_list ask (suc (length rest)) ≡ some (ok (page ++ concat_pages rest))
unfolding get_group_list
get_group_list-returns ask page rest h = group_loop-pages ask 0 [] page [] rest h

-- The same for members; what is found in a page has the code of the group afterwards.
abbrev pub GivesMembers :
    (ℕ → ℕ → Result GroupMemberListResponse)
    → ℕ
    → ℕ
    → List GroupMemberInfo
    → List (ℕ × List GroupMemberInfo)
    → Type 0
GivesMembers ask round uin page [] =
    (ask round uin ≡ ok (record { next_uin = 0; list = page })) × (is_empty page ≡ false)
GivesMembers ask round uin page ((next, more) ∷ rest) =
    (ask round uin ≡ ok (record { next_uin = next; list = page }))
    × (is_empty page ≡ false)
    × ((next == 0) ≡ false)
    × GivesMembers ask (suc round) next more rest

-- The members with the code of the group.
abbrev pub in_group : ℕ → List GroupMemberInfo → List GroupMemberInfo
in_group code [] = []
in_group code (m ∷ ms) = record m { group_code = code } ∷ in_group code ms

set_group_code-in_group :
    (code : ℕ) (xs : List GroupMemberInfo) → set_group_code code xs ≡ in_group code xs
unfolding set_group_code
set_group_code-in_group code [] = refl
set_group_code-in_group code (x ∷ xs) =
    ap (λ t. record x { group_code = code } ∷ t) (set_group_code-in_group code xs)

set_group_code-append :
    (code : ℕ) (xs ys : List GroupMemberInfo)
    → set_group_code code (xs ++ ys) ≡ set_group_code code xs ++ set_group_code code ys
unfolding set_group_code
set_group_code-append code [] ys = refl
set_group_code-append code (x ∷ xs) ys =
    ap (λ t. record x { group_code = code } ∷ t) (set_group_code-append code xs ys)

member_loop-pages :
    (code : ℕ) (ask : ℕ → ℕ → Result GroupMemberListResponse) (round uin : ℕ)
    (page before : List GroupMemberInfo) (rest : List (ℕ × List GroupMemberInfo))
    → GivesMembers ask round uin page rest
    → member_loop code ask (suc (length rest)) round uin before
      ≡ some (ok (before ++ set_group_code code (page ++ concat_pages rest)))
unfolding member_loop take_members
member_loop-pages code ask round uin page before [] h = rw (h.0, h.1, append-nil page)
member_loop-pages code ask round uin page before ((next, more) ∷ rest) h =
    rw (h.0, h.1, h.2)
      (member_loop-pages code ask (suc round) next more (before ++ set_group_code code page) rest
          h.3
        ∙ ap (λ x. some (ok x))
            (append_assoc before (set_group_code code page)
                (set_group_code code (more ++ concat_pages rest))
              ∙ ap (λ x. before ++ x)
                  (sym (set_group_code-append code page (more ++ concat_pages rest)))))

get_group_member_list-returns :
    (code : ℕ) (ask : ℕ → ℕ → Result GroupMemberListResponse) (page : List GroupMemberInfo)
    (rest : List (ℕ × List GroupMemberInfo))
    → GivesMembers ask 0 0 page rest
    → get_group_member_list code ask (suc (length rest))
      ≡ some (ok (in_group code (page ++ concat_pages rest)))
unfolding get_group_member_list
get_group_member_list-returns code ask page rest h =
    member_loop-pages code ask 0 0 page [] rest h
    ∙ ap (λ ms. some (ok ms)) (set_group_code-in_group code (page ++ concat_pages rest))

-- Against a server that answers the empty cookie with its first page of groups, each cookie that it gives
-- with the next page, and the last one with no cookie, `get_group_list` returns, with as many requests as
-- there are pages, the groups of all pages in their order. Against one that answers the number 0 with its
-- first page of members, each number that it gives, which is not 0, with the next page, and the last one
-- with 0, and that sends no page without members, so does `get_group_member_list`, and each member has
-- the code of the group.
pub group_lists-return :
    (ask : ℕ → List ℕ → Result GroupListResponse) (page : List GroupInfo)
    (rest : List (List ℕ × List GroupInfo)) (code : ℕ)
    (ask_members : ℕ → ℕ → Result GroupMemberListResponse) (members : List GroupMemberInfo)
    (more : List (ℕ × List GroupMemberInfo))
    → GivesGroups ask 0 [] page rest
    → GivesMembers ask_members 0 0 members more
    → (get_group_list ask (suc (length rest)) ≡ some (ok (page ++ concat_pages rest)))
      × (get_group_member_list code ask_members (suc (length more))
          ≡ some (ok (in_group code (members ++ concat_pages more))))
group_lists-return ask page rest code ask_members members more h k = (
  get_group_list-returns ask page rest h,
  get_group_member_list-returns code ask_members members more k,
)
