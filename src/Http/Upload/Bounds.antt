-- ===== src/Http/Upload/Bounds.antt =====
-- internal/httpserver/server.go: an upload keeps within the configured size.
use simplecontainerregistry.Base.{
  ℕ, zero, suc, ◌+◌, ◌-◌, ◌≤◌, ◌<◌, ◌^◌, Bytes, true, false, [], ◌∷◌, ◌++◌, Option, none, some,
  take, length, length-append, is_nil, Result, ok, err, upload_too_large, leb, ◌≡◌, ◌≢◌, refl, ap,
  ◌⊎◌, inl, inr, Bool-cases, arith, append_nil,
}
use simplecontainerregistry.Base.Int.{ℤ, pos, ltb_ℤ, add64}
use simplecontainerregistry.Storage.Path.{FilePath}
use simplecontainerregistry.Storage.Disk.{Node, folder, file, Disk, node_at}
use simplecontainerregistry.Storage.Disk.View.{content_at, content_at-put_same, contents}
use simplecontainerregistry.Http.Upload.{append_upload, append_copied, content_of_node, minus_ℤ}

take_all : (n : ℕ) (xs : Bytes) → length xs ≤ n → take n xs ≡ xs
take_all zero [] h = refl
take_all zero (x ∷ xs) h = absurd (omega (arith, h))
take_all (suc n) [] h = refl
take_all (suc n) (x ∷ xs) h = ap (λ (t : Bytes). x ∷ t) (take_all n xs (omega (arith, h)))

length-take_less : (n : ℕ) (xs : Bytes) → n < length xs → length (take n xs) ≡ n
length-take_less zero [] h = absurd (omega (arith, h))
length-take_less zero (x ∷ xs) h = refl
length-take_less (suc n) [] h = absurd (omega (arith, h))
length-take_less (suc n) (x ∷ xs) h = omega (arith, length-take_less n xs (omega (arith, h)))

length-take_at_most : (n : ℕ) (xs : Bytes) → n ≤ length xs → length (take n xs) ≡ n
length-take_at_most zero [] h = refl
length-take_at_most zero (x ∷ xs) h = refl
length-take_at_most (suc n) [] h = absurd (omega (arith, h))
length-take_at_most (suc n) (x ∷ xs) h = omega (arith, length-take_at_most n xs (omega (arith, h)))

take-append : (xs ys : Bytes) → take (length xs) (xs ++ ys) ≡ xs
take-append [] [] = refl
take-append [] (y ∷ ys) = refl
take-append (x ∷ xs) ys = ap (λ (t : Bytes). x ∷ t) (take-append xs ys)

next64 : (n : ℕ) → n < 2 ^ 63 - 1 → add64 (pos n) (pos 1) ≡ pos (n + 1)
unfolding add64
next64 n h = ground arith

content_ne : (p : FilePath) (content : Bytes) (d : Disk) → content_at p d ≡ some content → p ≢ []
content_ne p content d h z = cc (h, ap (λ (q : FilePath). content_at q d) z)

nothing : (content body : Bytes) → is_nil body ≡ true → content ++ body ≡ content
nothing content [] h = append_nil content
nothing content (b ∷ body) h = absurd (cc h)

some_content :
    (o : Option Node) (content : Bytes)
    → contents o ≡ some content
    → content_of_node o ≡ some content
some_content none content h = absurd (cc h)
some_content (some (folder time)) content h = absurd (cc h)
some_content (some (file c time)) content h = h

-- What appending a body to an upload of `content` does.
pub AppendsWithin : ℕ → FilePath → Bytes → Bytes → Result ℤ × Disk → Type 0
AppendsWithin max path content body (r, d) =
    ((length (content ++ body) ≤ max)
      × (r ≡ ok (pos (length (content ++ body))))
      × (content_at path d ≡ some (content ++ body)))
    ⊎ ((max < length (content ++ body))
        × (r ≡ err upload_too_large)
        × (content_at path d ≡ some content))

copied_fits :
    (max n : ℕ) (path : FilePath) (content body : Bytes) (d : Disk)
    → path ≢ []
    → content_at path d ≡ some content
    → n + length content ≡ max
    → length body ≤ n
    → AppendsWithin max path content body
        (append_copied path content body (length content) (pos n) d)
unfolding AppendsWithin
copied_fits max n path content body d ne h sum fits =
    let fine : ltb_ℤ (pos n) (pos (length body)) ≡ false = ground (arith, fits) in
    let within : length (content ++ body) ≤ max =
      omega (arith, sum, fits, length-append content body) in
    elim (Bool-cases (is_nil body)) [
      | inr e ↦
          rw (fine, e) (inl (within, refl, content_at-put_same path (content ++ body) d.now d ne))
      | inl e ↦
          let whole : content ++ body ≡ content = nothing content body e in
          rw (fine, e, whole) (inl (omega (arith, sum), refl, h))
    ]

copied_over :
    (max n : ℕ) (path : FilePath) (content body : Bytes) (d : Disk)
    → path ≢ []
    → n + length content ≡ max
    → n < length body
    → AppendsWithin max path content body
        (append_copied path content (take (n + 1) body) (length content) (pos n) d)
unfolding AppendsWithin
copied_over max n path content body d ne sum over =
    let len = length-take_at_most (n + 1) body (omega (arith, over)) in
    let big : ltb_ℤ (pos n) (pos (length (take (n + 1) body))) ≡ true = rw len (ground arith) in
    let beyond : max < length (content ++ body) =
      omega (arith, sum, over, length-append content body) in
    rw (big, take-append content (take (n + 1) body))
      (inr (beyond, refl, content_at-put_same path content d.now d ne))

-- While the limit is below the largest int64, appending to an upload within the limit adds the whole
-- body and tells the new size if that is within the limit, and otherwise fails and leaves the upload
-- as it was.
pub append_upload-AppendsWithin :
    (max : ℕ) (path : FilePath) (content body : Bytes) (d : Disk)
    → max < 2 ^ 63 - 1
    → content_at path d ≡ some content
    → length content ≤ max
    → AppendsWithin max path content body (append_upload path body (length content) (pos max) d)
unfolding append_upload
append_upload-AppendsWithin max path content body d big h fits =
    let n = max - length content in
    let room : minus_ℤ (pos max) (pos (length content)) ≡ pos n = ground (arith, fits) in
    let read = next64 n (omega (arith, big, fits)) in
    let ne = content_ne path content d h in
    let free : ltb_ℤ (pos n) (pos 0) ≡ false = ground arith in
    let sum : n + length content ≡ max = omega (arith, fits) in
    rw (some_content (node_at path d) content h, room, free, read)
      (elim (Bool-cases (leb (length body) n)) [
        | inl e ↦
            rw (take_all (n + 1) body (ground (arith, e)))
              (copied_fits max n path content body d ne h sum (ground (arith, e)))
        | inr e ↦ copied_over max n path content body d ne sum (ground (arith, e))
      ])
