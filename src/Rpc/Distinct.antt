-- ===== src/Rpc/Distinct.antt =====
-- A batch that shares the wallet's client has one client for each endpoint.
use mathlib.Core.List.{Memᴰ}
use mathlib.Core.Path.{subst}
use fast_wallet.Base.{
  ℕ, ◌≡◌, refl, sym, ap, ◌∙◌, Bool, true, false, ◌||◌, List, [], ◌∷◌, ◌++◌, any, Option, ◌==◌,
  Bool-cases, Option-cases, inl, inr, arith, ==_iff,
}
use fast_wallet.Errors.{Message, ok}
use fast_wallet.Rpc.Warm.{ParsedUrl}
use fast_wallet.Rpc.Client.{RpcClient, with_request_timeout}
use fast_wallet.Rpc.Send.{is_text}
use fast_wallet.Rpc.Verdicts.{WalletResult-cases, ok_same, err_ok}
use fast_wallet.Rpc.Clients.{
  BatchRpcClient, normalized_url, has_key, client_of, share_from, sharing_primary,
}

pub is_text_refl : (s : Message) → is_text s s ≡ true
is_text_refl [] = refl
is_text_refl (c ∷ s) = let same : (c == c) ≡ true = ground arith in rw same (is_text_refl s)

any-more :
    (p : RpcClient → Bool) (xs ys : List RpcClient) → any p xs ≡ true → any p (xs ++ ys) ≡ true
any-more p [] ys h = cc
any-more p (x ∷ xs) ys h = elim (Bool-cases (p x)) [
  | inl e ↦ rw e refl
  | inr e ↦ rw e (any-more p xs ys (rw e at h))
]

any-last :
    (p : RpcClient → Bool) (xs : List RpcClient) (y : RpcClient)
    → p y ≡ true
    → any p (xs ++ (y ∷ [])) ≡ true
any-last p [] y h = rw h refl
any-last p (x ∷ xs) y h = elim (Bool-cases (p x)) [
  | inl e ↦ rw e refl
  | inr e ↦ rw e (any-last p xs y h)
]

pub same_text : (a b : Message) → is_text a b ≡ true → a ≡ b
same_text [] [] h = refl
same_text [] (d ∷ t) h = cc
same_text (c ∷ s) [] h = cc
same_text (c ∷ s) (d ∷ t) h = elim (Bool-cases (c == d)) [
  | inl e ↦
      let more = same_text s t (rw e at h) in let same = (==_iff c d).0 e in rw (same, more) refl
  | inr e ↦ let wrong : false ≡ true = rw e at h in cc
]

is_text-sym : (a b : Message) → is_text a b ≡ is_text b a
is_text-sym [] [] = refl
is_text-sym [] (d ∷ t) = refl
is_text-sym (c ∷ s) [] = refl
is_text-sym (c ∷ s) (d ∷ t) =
    let swap : (c == d) ≡ (d == c) = ground arith in rw (swap, is_text-sym s t) refl

or_first : (a b : Bool) → (a || b) ≡ false → a ≡ false
or_first true b h = cc
or_first false b h = refl

or_second : (a b : Bool) → (a || b) ≡ false → b ≡ false
or_second true b h = cc
or_second false b h = h

none-append :
    (p : RpcClient → Bool) (xs : List RpcClient) (y : RpcClient)
    → any p xs ≡ false
    → p y ≡ false
    → any p (xs ++ (y ∷ [])) ≡ false
none-append p [] y h k = rw k refl
none-append p (x ∷ xs) y h k =
    rw (or_first (p x) (any p xs) h) (none-append p xs y (or_second (p x) (any p xs) h) k)

empty_mem {ℓ} : {P : Type ℓ} {url : Message} → Memᴰ url [] → P
empty_mem m = elim m [ ]

module _ (build_client : ℕ → Option Message) (parse : Message → Option ParsedUrl) where
  -- Every later client has a key of its own.
  abbrev pub Distinct : List RpcClient → Type 0
  Distinct [] = Unit
  Distinct (c ∷ cs) =
      (has_key build_client parse (normalized_url parse c.url) cs ≡ false) × Distinct cs

  has_key-more :
      (key : Message) (cs : List RpcClient) (c : RpcClient)
      → has_key build_client parse key cs ≡ true
      → has_key build_client parse key (cs ++ (c ∷ [])) ≡ true
  unfolding has_key
  has_key-more key cs c h = any-more _ cs (c ∷ []) h

  has_key-last :
      (key : Message) (cs : List RpcClient) (c : RpcClient)
      → normalized_url parse c.url ≡ key
      → has_key build_client parse key (cs ++ (c ∷ [])) ≡ true
  unfolding has_key
  has_key-last key cs c h = any-last _ cs c (rw h (is_text_refl key))

  first_or_rest :
      (u url : Message) (urls : List Message) (out : List RpcClient)
      → has_key build_client parse (normalized_url parse url) out ≡ true
      → ((v : Message)
          → Memᴰ v urls
          → has_key build_client parse (normalized_url parse v) out ≡ true)
      → Memᴰ u (url ∷ urls)
      → has_key build_client parse (normalized_url parse u) out ≡ true
  first_or_rest u url urls out k covered (Memᴰ.head e) = rw e k
  first_or_rest u url urls out k covered (Memᴰ.tail m) = covered u m

  pub key-client_of :
      (primary c : RpcClient) (limit : ℕ) (url : Message)
      → client_of build_client parse primary limit url ≡ ok c
      → normalized_url parse c.url ≡ normalized_url parse url
  unfolding client_of with_request_timeout
  key-client_of primary c limit url h =
      elim (Bool-cases (is_text (normalized_url parse primary.url) (normalized_url parse url))) [
        | inl shared ↦
            sym (ap (λ x. normalized_url parse x.url) (ok_same (rw shared at h)))
            ∙ same_text _ _ shared
        | inr other ↦ elim (Option-cases (build_client limit)) [
          | inl built ↦ sym (
              ap (λ x. normalized_url parse x.url)
                (ok_same (rw (with_request_timeout, built) at rw other at h)))
          | inr (why, failed) ↦ absurd (err_ok (rw (with_request_timeout, failed) at rw other at h))
        ]
      ]

  Distinct-append :
      (cs : List RpcClient) (c : RpcClient)
      → Distinct cs
      → has_key build_client parse (normalized_url parse c.url) cs ≡ false
      → Distinct (cs ++ (c ∷ []))
  unfolding has_key
  Distinct-append [] c d h = (refl, tt)
  Distinct-append (x ∷ xs) c (own, d) h =
      let key = normalized_url parse in
      let apart = or_first (is_text (key x.url) (key c.url)) _ h in
      let rest = or_second (is_text (key x.url) (key c.url)) _ h in
      (
        none-append (λ y. is_text (key y.url) (key x.url)) xs c own
            (is_text-sym (key c.url) (key x.url) ∙ apart),
        Distinct-append xs c d rest,
      )

  -- The clients so far stay, and what the loop adds has a key of its own.
  share-Distinct :
      (primary : RpcClient) (limit : ℕ) (cs : List RpcClient) (urls : List Message)
      (out : List RpcClient)
      → Distinct cs
      → share_from build_client parse primary limit cs urls ≡ ok out
      → Distinct out
        × ((key : Message)
            → has_key build_client parse key cs ≡ true
            → has_key build_client parse key out ≡ true)
        × ((url : Message)
            → Memᴰ url urls
            → has_key build_client parse (normalized_url parse url) out ≡ true)
  unfolding share_from
  share-Distinct primary limit cs [] out d h =
      let same = ok_same h in
      (
        subst Distinct same d,
        λ key k. subst (λ l. has_key build_client parse key l ≡ true) same k,
        λ url m. absurd (empty_mem m),
      )
  share-Distinct primary limit cs (url ∷ urls) out d h =
      elim (Bool-cases (has_key build_client parse (normalized_url parse url) cs)) [
        | inl known ↦
            let (fine, kept, covered) =
              share-Distinct primary limit cs urls out d (rw known at h) in
            (fine, kept, λ u m. first_or_rest u url urls out (kept _ known) covered m)
        | inr new ↦ elim (WalletResult-cases (client_of build_client parse primary limit url)) [
          | inl (c, e) ↦
              let same = key-client_of primary c limit url e in
              let fresh : has_key build_client parse (normalized_url parse c.url) cs ≡ false =
                rw same new in
              let (fine, kept, covered) =
                share-Distinct primary limit (cs ++ (c ∷ [])) urls out
                  (Distinct-append cs c d fresh) (rw (new, e) at h) in
              (
                fine,
                λ key k. kept key (has_key-more key cs c k),
                λ u m.
                    first_or_rest u url urls out
                      (kept _ (has_key-last (normalized_url parse url) cs c same)) covered m,
              )
          | inr (why, e) ↦ absurd (err_ok (rw (new, e) at h))
        ]
      ]

  -- When `sharing_primary` succeeds, no two of its clients have the same normalized URL, and every URL of the list has a client
  -- with its normalized URL.
  pub sharing_primary-Distinct :
      (primary : RpcClient) (urls : List Message) (limit : ℕ) (b : BatchRpcClient)
      → sharing_primary build_client parse primary urls limit ≡ ok b
      → Distinct b.clients
        × ((url : Message)
            → Memᴰ url urls
            → has_key build_client parse (normalized_url parse url) b.clients ≡ true)
  unfolding sharing_primary
  sharing_primary-Distinct primary urls limit b h =
      elim (WalletResult-cases (share_from build_client parse primary limit [] urls)) [
        | inl (clients, e) ↦
            let (fine, kept, covered) = share-Distinct primary limit [] urls clients tt e in
            let same = ap (λ x. x.clients) (ok_same (rw e at h)) in
            subst
              (λ l.
                Distinct l
                × ((url : Message)
                    → Memᴰ url urls
                    → has_key build_client parse (normalized_url parse url) l ≡ true))
              same (fine, covered)
        | inr (why, e) ↦ absurd (err_ok (rw e at h))
      ]
