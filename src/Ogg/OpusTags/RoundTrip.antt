-- ===== src/Ogg/OpusTags/RoundTrip.antt =====
-- oggreader/oggreader.go on the OpusTags payload of oggwriter/oggwriter.go.
use format.Prelude.{
  ℕ, ◌+◌, ◌-◌, ◌*◌, ◌/◌, ◌^◌, ◌≤◌, ◌<◌, ◌≡◌, refl, sym, ap, ◌∙◌, arith, true, false, List, [], ◌∷◌,
  ◌++◌, ltb, le→ltb, ◌==◌, Bytes, length, slice, All, none, some, ok, err, reject_if, then_ok,
  get_or_behind, slice-append, length-append, append_assoc,
}
use format.Prelude.Io.{put_le_32, le_32-put}
use format.Ogg.OpusHead.{header_opus_tags}
use format.Ogg.OpusTags.{
  UserComment, OpusTags, equals, valid_name_bytes, is_valid_comment_name, validate_user_comment,
  validate_user_comments, user_comment_len, validate_opus_tag_string,
  validate_opus_tags_with_max_header_len, append_comment, append_comments, build_comment_header,
  uint_32_at, split_2, parse_single_user_comment, parse_comments, parse_opus_tags, comment_of,
  parse_vendor_string, parse_user_comments, max_uint32_length,
}
use format.Ogg.Reader.{bad_opus_tags_signature}
use format.Ogg.Errors.{invalid_opus_tags}

uint_32_at-append :
    (pre rest : Bytes) (v pos : ℕ)
    → v < 2 ^ 32
    → pos ≡ length pre
    → uint_32_at (pre ++ (put_le_32 v ++ rest)) pos ≡ v
uint_32_at-append pre rest v pos fits h =
    let tail : Bytes = put_le_32 v ++ rest in
    rw
      (
        get_or_behind pre tail pos 0 0 (omega (arith, h)),
        get_or_behind pre tail (pos + 1) 1 0 (omega (arith, h)),
        get_or_behind pre tail (pos + 2) 2 0 (omega (arith, h)),
        get_or_behind pre tail (pos + 3) 3 0 (omega (arith, h)),
      )
      (le_32-put v fits)

split_2_lem :
    (name value : Bytes)
    → valid_name_bytes name ≡ true
    → split_2 (name ++ equals ∷ value) ≡ some (record { comment = name; value = value })
split_2_lem [] value h = refl
split_2_lem (b ∷ name) value h =
    let plain : (b == equals) ≡ false = ground arith in
    let later : valid_name_bytes name ≡ true = ground arith in
    rw (plain, split_2_lem name value later) refl

-- What the reader needs of a comment.
pub record IsComment (c : UserComment) : Type 0 where
  pub name_plain : valid_name_bytes c.comment ≡ true
  pub name_short : user_comment_len c < 2 ^ 32

parse_single_by :
    (payload text : Bytes) (c : UserComment) (pos n : ℕ)
    → ltb (length payload) (pos + 4) ≡ false
    → uint_32_at payload pos ≡ n
    → ltb (length payload - (pos + 4)) n ≡ false
    → slice payload (pos + 4) (pos + 4 + n) ≡ text
    → comment_of text ≡ ok c
    → parse_single_user_comment payload pos ≡ ok (c, pos + 4 + n)
parse_single_by payload text c pos n room len_is enough cut split =
    rw (room, len_is, enough, cut, split) refl

parse_single-append :
    (pre rest : Bytes) (c : UserComment) (pos : ℕ)
    → IsComment c
    → pos ≡ length pre
    → parse_single_user_comment (pre ++ (append_comment c ++ rest)) pos
      ≡ ok (c, pos + 4 + user_comment_len c)
parse_single-append pre rest c pos v h =
    let n : ℕ = user_comment_len c in
    let text : Bytes = c.comment ++ equals ∷ c.value in
    let payload : Bytes = pre ++ (put_le_32 n ++ (text ++ rest)) in
    let size : length text ≡ n = omega (arith, length-append c.comment (equals ∷ c.value)) in
    let total : length payload ≡ length pre + (4 + (n + length rest)) =
      omega
        (arith, size, length-append pre (put_le_32 n ++ (text ++ rest)), length-append text rest) in
    let room : ltb (length payload) (pos + 4) ≡ false = le→ltb _ _ (omega (arith, total, h)) in
    let enough : ltb (length payload - (pos + 4)) n ≡ false =
      le→ltb _ _ (omega (arith, total, h)) in
    let len_is : uint_32_at payload pos ≡ n =
      uint_32_at-append pre (text ++ rest) n pos v.name_short h in
    let cut : slice ((pre ++ put_le_32 n) ++ (text ++ rest)) (pos + 4) (pos + 4 + n) ≡ text =
      slice-append (pre ++ put_le_32 n) text rest (pos + 4) (pos + 4 + n)
        (omega (arith, h, length-append pre (put_le_32 n))) (omega (arith, size)) in
    let regroup : (pre ++ put_le_32 n) ++ (text ++ rest) ≡ payload =
      append_assoc pre (put_le_32 n) (text ++ rest) in
    parse_single_by payload text c pos n room len_is enough
      (ap (λ b. slice b (pos + 4) (pos + 4 + n)) (sym regroup) ∙ cut)
      (ap (λ o. elim o [ none ↦ err bad_opus_tags_signature | some d ↦ ok d ])
        (split_2_lem c.comment c.value v.name_plain))

parse_comments-append :
    (cs : List UserComment) (pre : Bytes) (pos : ℕ)
    → All IsComment cs
    → pos ≡ length pre
    → parse_comments (length cs) (pre ++ append_comments cs) pos ≡ ok cs
unfolding parse_comments
parse_comments-append [] pre pos v h = refl
parse_comments-append (c ∷ cs) pre pos v h =
    let here : Bytes = append_comment c in
    let rest : Bytes = append_comments cs in
    let one = parse_single-append pre rest c pos v.0 h in
    let more =
      parse_comments-append cs (pre ++ here) (pos + 4 + user_comment_len c) v.1
        (omega (arith, h, length-append pre here, length-append c.comment (equals ∷ c.value))) in
    let regroup : (pre ++ here) ++ rest ≡ pre ++ (here ++ rest) = append_assoc pre here rest in
    rw one (rw (rw regroup at more) refl)

length-append_comments_ge : (cs : List UserComment) → 4 * length cs ≤ length (append_comments cs)
length-append_comments_ge [] = omega arith
length-append_comments_ge (c ∷ cs) =
    omega
      (arith, length-append_comments_ge cs, length-append (append_comment c) (append_comments cs))

record IsTags (tags : OpusTags) : Type 0 where
  vendor_short : length tags.vendor < 2 ^ 32
  few_comments : length tags.user_comments < 2 ^ 32
  comments : All IsComment tags.user_comments

name_validated : (name : Bytes) → is_valid_comment_name name ≡ true → valid_name_bytes name ≡ true
name_validated [] e = absurd (cc e)
name_validated (b ∷ name) e = e

validate_user_comment-IsComment : (c : UserComment) → validate_user_comment c ≡ ok tt → IsComment c
validate_user_comment-IsComment c e = record {
  name_plain = ground (arith, name_validated c.comment);
  name_short = ground arith;
}

comments_validated : (cs : List UserComment) → validate_user_comments cs ≡ ok tt → All IsComment cs
comments_validated [] e = tt
comments_validated (c ∷ cs) e =
    let (one, more) = then_ok {m = validate_user_comment c} e in
    (validate_user_comment-IsComment c one, comments_validated cs more)

validated :
    (tags : OpusTags) (n : ℕ) → validate_opus_tags_with_max_header_len tags n ≡ ok tt → IsTags tags
unfolding validate_opus_tags_with_max_header_len
validated tags n e =
    let (vendor, e1) = then_ok {m = validate_opus_tag_string tags.vendor} e in
    let (few, e2) =
      then_ok {m = reject_if (ltb max_uint32_length (length tags.user_comments)) invalid_opus_tags}
        e1 in
    let (comments_ok, e3) = then_ok {m = validate_user_comments tags.user_comments} e2 in
    record {
      vendor_short = ground (arith, vendor);
      few_comments = ground (arith, few);
      comments = comments_validated tags.user_comments comments_ok;
    }

parse_vendor-append :
    (pre vendor rest : Bytes)
    → length pre ≡ 8
    → length vendor < 2 ^ 32
    → 4 ≤ length rest
    → parse_vendor_string (pre ++ (put_le_32 (length vendor) ++ (vendor ++ rest)))
      ≡ ok (vendor, 12 + length vendor)
parse_vendor-append pre vendor rest eight short room =
    let n : ℕ = length vendor in
    let payload : Bytes = pre ++ (put_le_32 n ++ (vendor ++ rest)) in
    let len_is : uint_32_at payload 8 ≡ n =
      uint_32_at-append pre (vendor ++ rest) n 8 short (omega (arith, eight)) in
    let total : length payload ≡ 12 + (n + length rest) = omega (
      arith,
      eight,
      length-append pre (put_le_32 n ++ (vendor ++ rest)),
      length-append vendor rest,
    ) in
    let fits : ltb (length payload - 16) n ≡ false = le→ltb _ _ (omega (arith, total, room)) in
    let ends : ltb (length payload) (12 + n + 4) ≡ false =
      le→ltb _ _ (omega (arith, total, room)) in
    let cut : slice ((pre ++ put_le_32 n) ++ (vendor ++ rest)) 12 (12 + n) ≡ vendor =
      slice-append (pre ++ put_le_32 n) vendor rest 12 (12 + n)
        (omega (arith, eight, length-append pre (put_le_32 n))) refl in
    let regroup : (pre ++ put_le_32 n) ++ (vendor ++ rest) ≡ payload =
      append_assoc pre (put_le_32 n) (vendor ++ rest) in
    vendor_by payload vendor n len_is fits ends (ap (λ b. slice b 12 (12 + n)) (sym regroup) ∙ cut)
  where
    vendor_by :
        (payload text : Bytes) (n : ℕ)
        → uint_32_at payload 8 ≡ n
        → ltb (length payload - 16) n ≡ false
        → ltb (length payload) (12 + n + 4) ≡ false
        → slice payload 12 (12 + n) ≡ text
        → parse_vendor_string payload ≡ ok (text, 12 + n)
    vendor_by payload text n len_is fits ends cut = rw (len_is, fits, ends, cut) refl

-- The list of comments behind its count.
parse_user_comments-append :
    (pre : Bytes) (cs : List UserComment) (pos : ℕ)
    → All IsComment cs
    → length cs < 2 ^ 32
    → pos ≡ length pre
    → parse_user_comments (pre ++ (put_le_32 (length cs) ++ append_comments cs)) pos ≡ ok cs
parse_user_comments-append pre cs pos v few h =
    let n : ℕ = length cs in
    let payload : Bytes = pre ++ (put_le_32 n ++ append_comments cs) in
    let count_is : uint_32_at payload pos ≡ n =
      uint_32_at-append pre (append_comments cs) n pos few h in
    let total : length payload ≡ length pre + (4 + length (append_comments cs)) =
      omega (arith, length-append pre (put_le_32 n ++ append_comments cs)) in
    let enough : ltb ((length payload - pos) / 4) n ≡ false =
      le→ltb _ _ (omega (arith, total, h, length-append_comments_ge cs)) in
    let read =
      parse_comments-append cs (pre ++ put_le_32 n) (pos + 4) v
        (omega (arith, h, length-append pre (put_le_32 n))) in
    let regroup : (pre ++ put_le_32 n) ++ append_comments cs ≡ payload =
      append_assoc pre (put_le_32 n) (append_comments cs) in
    rw (count_is, enough) (rw regroup at read)

-- The tags that pass the writer's validation are read back from their payload: the vendor and the comments
-- in their order, each name with its value, whatever equals signs the value has.
pub parse_opus_tags-build_comment_header :
    (tags : OpusTags) (max_header_len : ℕ)
    → validate_opus_tags_with_max_header_len tags max_header_len ≡ ok tt
    → parse_opus_tags (build_comment_header tags) ≡ ok tags
unfolding parse_opus_tags build_comment_header
parse_opus_tags-build_comment_header tags max_header_len e =
    let v : IsTags tags = validated tags max_header_len e in
    let n : ℕ = length tags.vendor in
    let tail : Bytes =
      put_le_32 (length tags.user_comments) ++ append_comments tags.user_comments in
    let payload : Bytes = header_opus_tags ++ (put_le_32 n ++ (tags.vendor ++ tail)) in
    let vendor =
      parse_vendor-append header_opus_tags tags.vendor tail refl v.vendor_short (omega arith) in
    let pre : Bytes = header_opus_tags ++ (put_le_32 n ++ tags.vendor) in
    let comments : parse_user_comments (pre ++ tail) (12 + n) ≡ ok tags.user_comments =
      parse_user_comments-append pre tags.user_comments (12 + n) v.comments v.few_comments
        (omega arith) in
    let long : ltb (length payload) 16 ≡ false =
      le→ltb _ 16 (omega (arith, length-append tags.vendor tail)) in
    rw (long, vendor, comments) refl
