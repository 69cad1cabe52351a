-- ===== src/Chat/Tests/Codec.antt =====
-- A codec for what chatd/main.go stores, in place of CBOR and JSON: the fields of a value behind each other, each
-- code raised by one and each field ended by a zero.
use zknode_autonomi_alpha.Prelude.{
  zero, suc, ◌≡◌, refl, ap, ◌∙◌, true, Option, none, some, List, [], ◌∷◌, ◌++◌, append_assoc,
  append-nil, Bytes, Result, ok, err, codes,
}
use zknode_autonomi_alpha.Chat.{ChatMessage, Group, Wire}
use zknode_autonomi_alpha.Chat.Invariant.{KeepsMembers}

abbrev raise : Bytes → Bytes
raise [] = []
raise (c ∷ s) = suc c ∷ raise s

abbrev pub join_fields : List Bytes → Bytes
join_fields [] = []
join_fields (f ∷ fs) = raise f ++ zero ∷ join_fields fs

unfoldable pub split_fields : Bytes → Bytes → List Bytes
split_fields [] part = []
split_fields (zero ∷ s) part = part ∷ split_fields s []
split_fields (suc c ∷ s) part = split_fields s (part ++ c ∷ [])

split_fields-raise :
    (f part rest : Bytes)
    → split_fields (raise f ++ zero ∷ rest) part ≡ (part ++ f) ∷ split_fields rest []
unfolding split_fields
split_fields-raise [] part rest = rw append-nil refl
split_fields-raise (c ∷ f) part rest =
    split_fields-raise f (part ++ c ∷ []) rest
    ∙ ap (λ s. s ∷ split_fields rest []) (append_assoc part (c ∷ []) f)

pub split_fields-join_fields : (fs : List Bytes) → split_fields (join_fields fs) [] ≡ fs
unfolding split_fields
split_fields-join_fields [] = refl
split_fields-join_fields (f ∷ fs) =
    split_fields-raise f [] (join_fields fs) ∙ ap (λ r. f ∷ r) (split_fields-join_fields fs)

abbrev message_fields : ChatMessage → List Bytes
message_fields m = m.id ∷ m.sender ∷ m.content ∷ m.kind ∷ (m.timestamp ∷ []) ∷ m.group_id ∷ []

abbrev message_of : List Bytes → Option ChatMessage
message_of (i ∷ s ∷ t ∷ k ∷ (ts ∷ []) ∷ g ∷ []) =
    some (record { id = i; sender = s; content = t; kind = k; timestamp = ts; group_id = g })
message_of fs = none

abbrev pub group_fields : Group → List Bytes
group_fields g = g.id ∷ g.name ∷ g.owner ∷ (g.created_at ∷ []) ∷ g.members

abbrev group_of : List Bytes → Result Group
group_of (i ∷ n ∷ o ∷ (t ∷ []) ∷ ms) =
    ok (record { id = i; name = n; owner = o; members = ms; created_at = t })
group_of fs = err (codes "no group")

abbrev pub wire : Wire
wire = record {
  is_text = λ s. true;
  encode_message = λ m. join_fields (message_fields m);
  decode_message = λ b. message_of (split_fields b []);
  encode_group = λ g. ok (join_fields (group_fields g));
  decode_group = λ b. group_of (split_fields b []);
  encode_ids = join_fields;
  decode_ids = λ b. some (split_fields b []);
  decode_request = λ b. err (codes "no request");
  encode_response = λ r. some [];
  encode_text = some;
  decode_choices = λ b. some (b ∷ []);
}

pub decode_message-encode_message :
    (m : ChatMessage) → wire.decode_message (wire.encode_message m) ≡ some m
decode_message-encode_message m = ap message_of (split_fields-join_fields (message_fields m))

pub decode_group-encode_group :
    (g : Group) → wire.decode_group (join_fields (group_fields g)) ≡ ok g
decode_group-encode_group g = ap group_of (split_fields-join_fields (group_fields g))

same_group :
    (g g' : Group) (b : Bytes) → wire.encode_group g ≡ ok b → wire.decode_group b ≡ ok g' → g' ≡ g
same_group g g' b e d = cc (e, d, decode_group-encode_group g)

pub wire-KeepsMembers : KeepsMembers wire
wire-KeepsMembers = record {
  owner = λ g g' b e d. ap (λ x. x.owner) (same_group g g' b e d);
  members = λ g g' b e d. ap (λ x. x.members) (same_group g g' b e d);
}
