-- ===== src/Transport/Serve/Files.antt =====
-- The replies of the resource methods carry the id of the request.
use tool_smith.Base.{not, Option, none, some, Bytes, ascii, is_empty, drop}
use tool_smith.Base.Except.{ok}
use tool_smith.Base.FilePath.{FilePath}
use tool_smith.Json.{Json}
use tool_smith.CoreTools.Run.{starts_with}
use tool_smith.Transport.{Skills, SkillBody, Host, Transport}
use tool_smith.Transport.Resources.{
  handle_resources_list, read_skill_file, read_body, read_skill, Located, denied, located,
  read_opened, read_located, read_uri, read_given, handle_resources_read, subscribe_located,
  subscribe_given, handle_resources_subscribe, unsubscribe_given, handle_resources_unsubscribe,
  outside_of, skill_root, shown_skills, split_slash, locate,
}
use tool_smith.Transport.Serve.{returns}
use tool_smith.Transport.Serve.Replies.{
  Replies, Reacts, make_response-Replies, make_error-Replies, if_cases,
}

abbrev Ends : Json → Json → Type 0
Ends id reply = Replies id (ok reply)

module _ {W : Type 0} (host : Host W) (id : Json) where
  pub handle_resources_list-Replies : (t : Transport W) → Ends id (handle_resources_list host id t)
  unfolding handle_resources_list
  handle_resources_list-Replies t = make_response-Replies id _

  read_skill_file-Replies :
      (uri : Bytes) (skill : FilePath) (rel : Bytes)
      → Ends id (read_skill_file host id uri skill rel)
  unfolding read_skill_file
  read_skill_file-Replies uri skill rel =
      if_cases (Ends id) (outside_of _ _) _ _ (make_error-Replies id _ _) (
        if_cases (Ends id) (not (host.volume.is_regular_file _)) _ _ (make_error-Replies id _ _)
          (make_response-Replies id _))

  read_body-Replies : (uri : Bytes) (body : SkillBody) → Ends id (read_body id uri body)
  read_body-Replies uri body =
      if_cases (Ends id) (not (is_empty body.error)) _ _ (make_error-Replies id _ _)
        (make_response-Replies id _)

  read_skill-Replies :
      (uri : Bytes) (named : Bytes × Bytes) (o : Option Skills)
      → Ends id (read_skill host id uri named o)
  unfolding read_skill
  read_skill-Replies uri (name, rel) none = make_error-Replies id _ _
  read_skill-Replies uri (name, rel) (some s) =
      if_cases (Ends id) (is_empty rel) _ _ (read_body-Replies uri (s.load_body name)) (
        if_cases (Ends id) (is_empty (skill_root name s.skills)) _ _ (make_error-Replies id _ _)
          (read_skill_file-Replies uri (skill_root name s.skills) rel))

  read_opened-Replies : (uri : Bytes) (o : Option Bytes) → Ends id (read_opened id uri o)
  read_opened-Replies uri none = make_error-Replies id _ _
  read_opened-Replies uri (some bytes) = make_response-Replies id _

  read_located-Replies : (uri : Bytes) (l : Located) → Ends id (read_located host id uri l)
  read_located-Replies uri (denied code message) = make_error-Replies id code message
  read_located-Replies uri (located path) = read_opened-Replies uri (host.volume.read_all path)

  read_uri-Replies : (uri : Bytes) (t : Transport W) → Ends id (read_uri host id uri t)
  unfolding read_uri
  read_uri-Replies uri t =
      if_cases (Ends id) (starts_with (ascii "skill://") uri) _ _
        (read_skill-Replies uri (split_slash (drop 8 uri)) (shown_skills host t))
        (read_located-Replies uri (locate host uri))

  read_given-Replies : (t : Transport W) (o : Option Bytes) → Ends id (read_given host id t o)
  read_given-Replies t none = make_error-Replies id _ _
  read_given-Replies t (some uri) = read_uri-Replies uri t

  pub handle_resources_read-Replies :
      (params : Json) (t : Transport W) → Ends id (handle_resources_read host params id t)
  unfolding handle_resources_read
  handle_resources_read-Replies params t = read_given-Replies t _

  subscribe_located-Replies :
      (uri : Bytes) (t : Transport W) (l : Located) → Ends id (subscribe_located host id uri t l).0
  subscribe_located-Replies uri t (denied code message) = make_error-Replies id code message
  subscribe_located-Replies uri t (located path) = make_response-Replies id _

  subscribe_given-Replies :
      (t : Transport W) (o : Option Bytes) → Ends id (subscribe_given host id t o).0
  subscribe_given-Replies t none = make_error-Replies id _ _
  subscribe_given-Replies t (some uri) = subscribe_located-Replies uri t (locate host uri)

  pub handle_resources_subscribe-Replies :
      (params : Json) (t : Transport W)
      → Reacts id (returns (handle_resources_subscribe host params id t))
  unfolding handle_resources_subscribe
  handle_resources_subscribe-Replies params t = subscribe_given-Replies t _

unsubscribe_given-Replies :
    {W : Type 0} (id : Json) (t : Transport W) (o : Option Bytes)
    → Ends id (unsubscribe_given id t o).0
unsubscribe_given-Replies id t none = make_error-Replies id _ _
unsubscribe_given-Replies id t (some uri) = make_response-Replies id _

pub handle_resources_unsubscribe-Replies :
    {W : Type 0} (params id : Json) (t : Transport W)
    → Reacts id (returns (handle_resources_unsubscribe params id t))
unfolding handle_resources_unsubscribe
handle_resources_unsubscribe-Replies params id t = unsubscribe_given-Replies id t _
