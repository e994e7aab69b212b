-- ===== src/Rpc/Serves.antt =====
-- The clients of a batch are those of its URLs, and no others.
use mathlib.Core.List.{Memᴰ}
use mathlib.Core.Path.{subst}
use fast_wallet.Base.{
  ℕ, ◌≡◌, refl, sym, ap, ◌∙◌, true, ◌⊎◌, inl, inr, List, [], ◌∷◌, ◌++◌, Option, Bool-cases,
  Option-cases,
}
use fast_wallet.Errors.{Message, WalletResult, ok, err, ◌>>=◌}
use fast_wallet.Rpc.Warm.{ParsedUrl}
use fast_wallet.Rpc.Client.{RpcClient, with_request_timeout}
use fast_wallet.Rpc.Clients.{
  BatchRpcClient, normalized_url, has_key, client_of, share_from, sharing_primary,
}
use fast_wallet.Rpc.Verdicts.{ok_same, err_ok}
use fast_wallet.Rpc.Distinct.{is_text_refl, Distinct, key-client_of, sharing_primary-Distinct}

pub bind_ok {ℓ κ} :
    {A : Type ℓ} {B : Type κ} (m : WalletResult A) (f : A → WalletResult B) {b : B}
    → (m >>= f) ≡ ok b
    → (a : A) × (m ≡ ok a) × (f a ≡ ok b)
bind_ok (ok a) f h = (a, refl, h)
bind_ok (err e) f h = absurd (err_ok h)

Memᴰ-last {ℓ} : {A : Type ℓ} (xs : List A) (y x : A) → Memᴰ x (xs ++ (y ∷ [])) → Memᴰ x xs ⊎ (x ≡ y)
Memᴰ-last [] y x (Memᴰ.head e) = inr e
Memᴰ-last [] y x (Memᴰ.tail m) = elim m [ ]
Memᴰ-last (z ∷ xs) y x (Memᴰ.head e) = inl (Memᴰ.head e)
Memᴰ-last (z ∷ xs) y x (Memᴰ.tail m) = elim (Memᴰ-last xs y x m) [
  | inl inside ↦ inl (Memᴰ.tail inside)
  | inr last ↦ inr last
]

only_one {ℓ} : {A : Type ℓ} {x y : A} → Memᴰ x (y ∷ []) → x ≡ y
only_one (Memᴰ.head e) = e
only_one (Memᴰ.tail m) = elim m [ ]

module _ (build_client : ℕ → Option Message) (parse : Message → Option ParsedUrl) where
  -- The client has the normalized URL of one of the list.
  abbrev pub Listed : List Message → RpcClient → Type 0
  Listed urls c =
      (url : Message) × Memᴰ url urls × (normalized_url parse c.url ≡ normalized_url parse url)

  Listed-later :
      (url : Message) (urls : List Message) (c : RpcClient) → Listed urls c → Listed (url ∷ urls) c
  Listed-later url urls c (u, m, e) = (u, Memᴰ.tail m, e)

  share-Listed :
      (primary : RpcClient) (limit : ℕ) (cs : List RpcClient) (urls : List Message)
      (out : List RpcClient) (c : RpcClient)
      → share_from build_client parse primary limit cs urls ≡ ok out
      → Memᴰ c out
      → Memᴰ c cs ⊎ Listed urls c
  unfolding share_from
  share-Listed primary limit cs [] out c h m = inl (subst (Memᴰ c) (sym (ok_same h)) m)
  share-Listed primary limit cs (url ∷ urls) out c h m =
      elim (Bool-cases (has_key build_client parse (normalized_url parse url) cs)) [
        | inl known ↦ elim (share-Listed primary limit cs urls out c (rw known at h) m) [
          | inl old ↦ inl old
          | inr later ↦ inr (Listed-later url urls c later)
        ]
        | inr new ↦
            let (d, e, rest) =
              bind_ok (client_of build_client parse primary limit url) _ (rw new at h) in
            elim (share-Listed primary limit (cs ++ (d ∷ [])) urls out c rest m) [
              | inl old ↦ elim (Memᴰ-last cs d c old) [
                | inl older ↦ inl older
                | inr own ↦ inr (
                  url,
                  Memᴰ.head refl,
                  ap (λ x. normalized_url parse x.url) own
                      ∙ key-client_of build_client parse primary d limit url e,
                )
              ]
              | inr later ↦ inr (Listed-later url urls c later)
            ]
      ]

  -- The clients are those of the URLs: each has the normalized URL of one, each URL has a client with its normalized URL,
  -- and no two have the same.
  pub record Serves (urls : List Message) (cs : List RpcClient) : Type 0 where
    pub only : (c : RpcClient) → Memᴰ c cs → Listed urls c
    pub every :
        (url : Message)
        → Memᴰ url urls
        → has_key build_client parse (normalized_url parse url) cs ≡ true
    pub distinct : Distinct build_client parse cs

  none_before : (urls : List Message) (c : RpcClient) → Memᴰ c [] ⊎ Listed urls c → Listed urls c
  none_before urls c (inl m) = elim m [ ]
  none_before urls c (inr l) = l

  pub sharing_primary-Serves :
      (primary : RpcClient) (urls : List Message) (limit : ℕ) (b : BatchRpcClient)
      → sharing_primary build_client parse primary urls limit ≡ ok b
      → Serves urls b.clients
  unfolding sharing_primary
  sharing_primary-Serves primary urls limit b h =
      let (distinct, every) = sharing_primary-Distinct build_client parse primary urls limit b h in
      let (clients, e, made) = bind_ok (share_from build_client parse primary limit [] urls) _ h in
      let same : clients ≡ b.clients = ap (λ x. x.clients) (ok_same made) in
      record {
        only = λ c m.
            none_before urls c
              (share-Listed primary limit [] urls clients c e (subst (Memᴰ c) (sym same) m));
        every = every;
        distinct = distinct;
      }

  pub url-with_request_timeout :
      (url : Message) (limit : ℕ) (c : RpcClient)
      → with_request_timeout build_client parse url limit ≡ ok c
      → c.url ≡ url
  unfolding with_request_timeout
  url-with_request_timeout url limit c h = elim (Option-cases (build_client limit)) [
    | inl built ↦ sym (ap (λ x. x.url) (ok_same (rw (with_request_timeout, built) at h)))
    | inr (why, failed) ↦ absurd (err_ok (rw (with_request_timeout, failed) at h))
  ]

  pub one_client : (c : RpcClient) (url : Message) → c.url ≡ url → Serves (url ∷ []) (c ∷ [])
  unfolding has_key
  one_client c url e = record {
    only = λ d m. (
      url,
      Memᴰ.head refl,
      ap (λ x. normalized_url parse x.url) (only_one m) ∙ ap (normalized_url parse) e,
    );
    every = λ u m. rw (e, only_one m) (rw (is_text_refl (normalized_url parse url)) refl);
    distinct = (refl, tt);
  }
