-- ===== src/Client/Lists/Friends.antt =====
-- `get_friend_list` of ricq/src/client/api/friend.rs against a server with a list of friends.
use ricq.Base.{
  ℕ, zero, suc, ◌+◌, ◌*◌, ◌/◌, ◌^◌, ◌≤◌, ◌<◌, ◌≡◌, refl, ap, ap₂, ◌∙◌, arith, List, [], ◌∷◌, ◌++◌,
  length, length-take, take, drop, take-all, Option, none, some, false, leb, leb→le, leb_false→lt,
  min, Bool-cases, inl, inr,
}
use ricq.Result.{Result, ok}
use ricq.Structs.{FriendInfo, FriendListResponse}
use ricq.Client.Lists.{
  FriendPage, friend_list_default, add_page, next_page, has_all, take_page, friend_loop,
  get_friend_list, as_i16,
}

-- A server that answers each request with the friends that the request asks for, and their number.
abbrev pub IsServer : List FriendInfo → (ℕ → FriendPage → Result FriendListResponse) → Type 0
IsServer all ask =
    (round : ℕ) (q : FriendPage)
    → (resp : FriendListResponse) × (ask round q ≡ ok resp)
      × (resp.friends ≡ take q.friend_list_count (drop q.friend_start_index all))
      × (resp.total_count ≡ length all)

take_nil : {A : Type 0} (n : ℕ) → [] ≡ take {A = A} n []
take_nil zero = refl
take_nil (suc n) = refl

take-more : {A : Type 0} (m n : ℕ) (xs : List A) → take m xs ++ take n (drop m xs) ≡ take (m + n) xs
take-more zero n xs = let e : n ≡ zero + n = omega arith in ap (λ (j : ℕ). take j xs) e
take-more (suc m) zero [] = take_nil (suc m + zero)
take-more (suc m) (suc n) [] = take_nil (suc m + suc n)
take-more (suc m) n (x ∷ xs) =
    let e : suc (m + n) ≡ suc m + n = omega arith in
    ap (λ t. x ∷ t) (take-more m n xs) ∙ ap (λ (j : ℕ). take j (x ∷ xs)) e

has_all-leb :
    (output : FriendListResponse) (n : ℕ)
    → output.total_count ≡ n
    → n < 2 ^ 15
    → length output.friends ≤ n
    → has_all output ≡ leb n (length output.friends)
unfolding has_all
has_all-leb output n t l m = rw t (ground arith)

kept_total :
    (output resp : FriendListResponse) (n : ℕ)
    → resp.total_count ≡ n
    → (add_page resp output).total_count ≡ n
unfolding add_page
kept_total output resp n e = e

kept_online :
    (output resp : FriendListResponse)
    → output.online_friend_count ≡ 0
    → (add_page resp output).online_friend_count ≡ 0
unfolding add_page
kept_online output resp e = e

module _ (all : List FriendInfo) (ask : ℕ → FriendPage → Result FriendListResponse)
    (small : length all < 2 ^ 15) (server : IsServer all ask) where
  -- What the loop returns.
  abbrev Complete : Option (Result FriendListResponse) → Type 0
  Complete r =
      (out : FriendListResponse) × (r ≡ some (ok out))
      × (out.friends ≡ all)
      × (out.total_count ≡ length all)
      × (out.online_friend_count ≡ 0)

  page_friends :
      (k : ℕ) (output resp : FriendListResponse)
      → k ≤ length all
      → output.friends ≡ take k all
      → resp.friends
        ≡ take
            ((next_page output).friend_list_count)
            (drop ((next_page output).friend_start_index) all)
      → (add_page resp output).friends ≡ take (k + 150) all
  unfolding add_page next_page
  page_friends k output resp l e f =
      let size : as_i16 (length output.friends) ≡ k = rw e (omega (arith, length-take k all)) in
      ap₂ (λ x y. x ++ y) e (f ∙ rw size) ∙ take-more k 150 all

  friend_loop-Complete :
      (fuel round k : ℕ) (output : FriendListResponse)
      → k ≤ length all
      → length all < k + 150 * fuel
      → output.friends ≡ take k all
      → output.online_friend_count ≡ 0
      → Complete (friend_loop ask fuel round output)
  unfolding friend_loop take_page
  friend_loop-Complete zero round k output l m e z = absurd (omega arith)
  friend_loop-Complete (suc fuel) round k output l m e z =
      let (resp, answer, friends, total) = server round (next_page output) in
      let new : (add_page resp output).friends ≡ take (k + 150) all =
        page_friends k output resp l e friends in
      let size : length (add_page resp output).friends ≡ min (k + 150) (length all) =
        ap length new ∙ length-take (k + 150) all in
      let test : has_all (add_page resp output)
          ≡ leb (length all) (length (add_page resp output).friends) =
        has_all-leb (add_page resp output) (length all) (kept_total output resp (length all) total)
          small (omega arith) in
      elim (Bool-cases (leb (length all) (length (add_page resp output).friends))) [
        | inl b ↦ (
          add_page resp output,
          rw (answer, test, b),
          new ∙ take-all (k + 150) all (omega (arith, leb→le _ _ b)),
          kept_total output resp (length all) total,
          kept_online output resp z,
        )
        | inr b ↦
            let (out, returns, same, count, online) =
              friend_loop-Complete fuel (suc round) (k + 150) (add_page resp output)
                (omega (arith, leb_false→lt _ _ b, size)) (omega arith) new
                (kept_online output resp z) in
            (out, rw (answer, test, b) returns, same, count, online)
      ]

  -- Against a server that answers every request with as many of its friends as are asked for, from the
  -- index asked for, and with their number, which is below 2 ^ 15, `get_friend_list` returns after at most
  -- one request for each 150 friends and one more: all friends in their order, and their number. The
  -- number of friends who are online is 0, whatever the server says.
  pub get_friend_list-returns : Complete (get_friend_list ask (length all / 150 + 1))
  unfolding get_friend_list friend_list_default
  get_friend_list-returns =
      friend_loop-Complete (length all / 150 + 1) 0 0 friend_list_default (omega arith)
        (omega arith) refl refl

-- A server that sends no friends and says that there are some.
abbrev pub IsSilent : ℕ → (ℕ → FriendPage → Result FriendListResponse) → Type 0
IsSilent n ask =
    (round : ℕ) (q : FriendPage)
    → (resp : FriendListResponse) × (ask round q ≡ ok resp)
      × (resp.friends ≡ [])
      × (resp.total_count ≡ n)

no_friends :
    (output resp : FriendListResponse)
    → output.friends ≡ []
    → resp.friends ≡ []
    → (add_page resp output).friends ≡ []
unfolding add_page
no_friends output resp e f = rw (e, f)

friend_loop-IsSilent :
    (n : ℕ) (ask : ℕ → FriendPage → Result FriendListResponse) (fuel round : ℕ)
    (output : FriendListResponse)
    → 0 < n
    → n < 2 ^ 15
    → IsSilent n ask
    → output.friends ≡ []
    → friend_loop ask fuel round output ≡ none
unfolding friend_loop take_page
friend_loop-IsSilent n ask zero round output l m silent e = refl
friend_loop-IsSilent n ask (suc fuel) round output l m silent e =
    let (resp, answer, friends, total) = silent round (next_page output) in
    let new : (add_page resp output).friends ≡ [] = no_friends output resp e friends in
    let test : has_all (add_page resp output) ≡ false =
      has_all-leb (add_page resp output) n (kept_total output resp n total) m
        (omega (arith, ap length new))
      ∙ rw (ap length new) (ground arith) in
    rw (answer, test)
      (friend_loop-IsSilent n ask fuel (suc round) (add_page resp output) l m silent new)

-- Against a server that sends no friends and says each time that there are some, fewer than 2 ^ 15,
-- `get_friend_list` goes on asking, however many requests it has made.
pub get_friend_list-never :
    (n fuel : ℕ) (ask : ℕ → FriendPage → Result FriendListResponse)
    → 0 < n
    → n < 2 ^ 15
    → IsSilent n ask
    → get_friend_list ask fuel ≡ none
unfolding get_friend_list friend_list_default
get_friend_list-never n fuel ask l m silent =
    friend_loop-IsSilent n ask fuel 0 friend_list_default l m silent refl
