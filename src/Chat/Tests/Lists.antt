-- ===== src/Chat/Tests/Lists.antt =====
-- chatd/main.go: a list of groups that is out of date, run.
use zknode_autonomi_alpha.Prelude.{
  ◌≡◌, refl, true, false, some, [], ◌∷◌, Bytes, ok, codes, arith, ==_refl, list_eq, ◌==◌, nat_Eq,
  list_Eq, contains,
}
use zknode_autonomi_alpha.FilePath.{DirPath}
use zknode_autonomi_alpha.Files.{Files, file, names, read_file, put_file, add_dirs, has_dir}
use zknode_autonomi_alpha.Files.Laws.{
  IsWellFormed, IsWellFormed-put_file, IsWellFormed-add_dirs, file-put_file, has_dir-add_dirs,
  file-add_dirs,
}
use zknode_autonomi_alpha.Chat.{ChatRequest, ChatMessage, respond, success}
use zknode_autonomi_alpha.Chat.Store.{
  user_dir, group_dir, groups_json, meta_json, is_member, load_group_meta, get_user_groups,
}
use zknode_autonomi_alpha.Chat.Groups.{handle_group_poll}
use zknode_autonomi_alpha.Chat.Mailbox.{inbox}
use zknode_autonomi_alpha.Chat.Outsiders.{IsRefused, has_dir-file}
use zknode_autonomi_alpha.Chat.StaleLists.{stale_list_reads}
use zknode_autonomi_alpha.Chat.Tests.Codec.{split_fields, wire, join_fields, group_fields}
use zknode_autonomi_alpha.Chat.Tests.World.{
  daemon, host, host-Willing, alice, carol, ask, friends, stored, stored-IsWellFormed, load-found,
}

abbrev here : DirPath
here = group_dir daemon (codes "ab")

abbrev hers : DirPath
hers = user_dir daemon carol

abbrev list_text : Bytes
list_text = join_fields (codes "ab" ∷ [])

abbrev group_text : Bytes
group_text = join_fields (group_fields friends)

-- The group of two, and the list of carol, who is not a member: it names the group.
abbrev with_list : Files
with_list = put_file hers groups_json list_text (add_dirs hers (stored friends))

abbrev news : ChatMessage
news = record {
  id = codes "n";
  sender = alice;
  content = codes "news";
  kind = codes "text";
  timestamp = 1000;
  group_id = codes "ab";
}

-- In the group, a message waits.
abbrev with_news : Files
with_news = put_file here (codes "n.msg") (wire.encode_message news) with_list

with_news-IsWellFormed : IsWellFormed with_news
with_news-IsWellFormed = IsWellFormed-put_file here (codes "n.msg") _ with_list (
    IsWellFormed-put_file hers groups_json list_text (add_dirs hers (stored friends))
      (IsWellFormed-add_dirs hers (stored friends) (stored-IsWellFormed friends)))

list_is_not_group : (groups_json == meta_json) ≡ false
unfolding list_eq
list_is_not_group = refl

news_is_not_group : (codes "n.msg" == meta_json) ≡ false
unfolding list_eq
news_is_not_group = refl

news_is_not_list : (codes "n.msg" == groups_json) ≡ false
unfolding list_eq
news_is_not_list = refl

group_there : file with_list here meta_json ≡ some group_text
group_there =
    let kept =
      file-put_file hers groups_json list_text (add_dirs hers (stored friends)) here meta_json
        (has_dir-add_dirs hers (stored friends)) in
    let made = file-add_dirs hers (stored friends) here meta_json in
    let first =
      file-put_file here meta_json group_text (add_dirs here []) here meta_json
        (has_dir-add_dirs here []) in
    ground (arith, kept, made, first, list_is_not_group, ==_refl here, ==_refl meta_json)

dir_there : has_dir with_list here ≡ true
dir_there = has_dir-file with_list here meta_json group_text group_there

load-with_news : load_group_meta wire daemon host (codes "ab") with_news ≡ ok friends
load-with_news =
    let kept =
      file-put_file here (codes "n.msg") (wire.encode_message news) with_list here meta_json
        dir_there in
    load-found friends with_news (ground (arith, kept, news_is_not_group, group_there))

listed-with_news : get_user_groups wire daemon host carol with_news ≡ some (codes "ab" ∷ [])
unfolding get_user_groups read_file split_fields
listed-with_news =
    let kept =
      file-put_file here (codes "n.msg") (wire.encode_message news) with_list hers groups_json
        dir_there in
    let before =
      file-put_file hers groups_json list_text (add_dirs hers (stored friends)) hers groups_json
        (has_dir-add_dirs hers (stored friends)) in
    let found : file with_news hers groups_json ≡ some list_text =
      ground (arith, kept, before, news_is_not_list, ==_refl hers, ==_refl groups_json) in
    rw (found, get_user_groups, read_file) refl

abbrev carol_polls : ChatRequest
carol_polls = ask carol [] [] [] []

stale_list_reads_example :
    IsRefused with_news (
      respond
        (handle_group_poll wire daemon host (record carol_polls { group_id = codes "ab" }))
        with_news)
    × ((respond (handle_group_poll wire daemon host carol_polls) with_news).0
        ≡ record success { messages = inbox wire host here (names with_news here) with_news })
unfolding is_member contains list_eq
stale_list_reads_example =
    stale_list_reads wire daemon host carol_polls (codes "ab") with_news friends host-Willing
      with_news-IsWellFormed refl refl refl listed-with_news load-with_news refl
