-- ===== src/SvcClient/Printing.antt =====
-- seat_service/src/examples/seat_svc_client/seat_svc_client.cc: the texts of a status and of a position,
-- each as the list of its bytes.
use kuksa_val_services.Prelude.{ℕ, pos, List, ◌++◌, String, ◌≡◌, ◌⊎◌, inl, inr, refl, if◌then◌else◌}
use kuksa_val_services.Prelude.Format.{codes, decimal}
use kuksa_val_services.Grpc.{
  StatusCode, ok, cancelled, unknown, invalid_argument, deadline_exceeded, not_found,
  already_exists, permission_denied, unauthenticated, resource_exhausted, failed_precondition,
  aborted, out_of_range, unimplemented, internal, unavailable, data_loss, other, Status,
  status_code_text,
}
use kuksa_val_services.Service.{Position}
use kuksa_val_services.Feeder.State.{status_is_ok}

unfoldable pub grpc_status_code_to_string : StatusCode → String
grpc_status_code_to_string ok = "OK"
grpc_status_code_to_string cancelled = "CANCELLED"
grpc_status_code_to_string unknown = "UNKNOWN"
grpc_status_code_to_string invalid_argument = "INVALID_ARGUMENT"
grpc_status_code_to_string deadline_exceeded = "DEADLINE_EXCEEDED"
grpc_status_code_to_string not_found = "NOT_FOUND"
grpc_status_code_to_string already_exists = "ALREADY_EXISTS"
grpc_status_code_to_string permission_denied = "PERMISSION_DENIED"
grpc_status_code_to_string resource_exhausted = "RESOURCE_EXHAUSTED"
grpc_status_code_to_string failed_precondition = "FAILED_PRECONDITION"
grpc_status_code_to_string aborted = "ABORTED"
grpc_status_code_to_string out_of_range = "OUT_OF_RANGE"
grpc_status_code_to_string unimplemented = "UNIMPLEMENTED"
grpc_status_code_to_string internal = "INTERNAL"
grpc_status_code_to_string unavailable = "UNAVAILABLE"
grpc_status_code_to_string data_loss = "DATA_LOSS"
grpc_status_code_to_string unauthenticated = "UNAUTHENTICATED"
grpc_status_code_to_string (other n) = "UNKNOWN"

-- The number of a code is the generated enum's. The first text goes to stdout, the other to stderr.
unfoldable pub print_grpc_status : (StatusCode → ℕ) → Status → List ℕ
unfolding grpc_status_code_to_string
print_grpc_status code_number status =
    if status_is_ok status.code
    then codes "GRPC: OK\n"
    else codes "GRPC error: { code:"
      ++ (decimal (pos (code_number status.code))
          ++ (codes " ("
              ++ (codes (grpc_status_code_to_string status.code)
                  ++ (codes ") \"" ++ (codes status.message ++ codes "\" }\n")))))

unfoldable pub print_postition : Position → List ℕ
print_postition position =
    codes "Postition: { Base:"
    ++ (decimal position.base
        ++ (codes ", Cushion:"
            ++ (decimal position.cushion
                ++ (codes ", Lumbar:"
                    ++ (decimal position.lumbar
                        ++ (codes ", SideBolster:"
                            ++ (decimal position.side_bolster
                                ++ (codes ", HeadRestraint:"
                                    ++ (decimal position.head_restraint ++ codes " }\n")))))))))

-- The client and KuksaClient name every code of the enum alike.
status_names :
    (print : ℕ → String) (c : StatusCode)
    → (grpc_status_code_to_string c ≡ status_code_text print c) ⊎ ((n : ℕ) × (c ≡ other n))
unfolding grpc_status_code_to_string status_code_text
status_names print ok = inl refl
status_names print cancelled = inl refl
status_names print unknown = inl refl
status_names print invalid_argument = inl refl
status_names print deadline_exceeded = inl refl
status_names print not_found = inl refl
status_names print already_exists = inl refl
status_names print permission_denied = inl refl
status_names print resource_exhausted = inl refl
status_names print failed_precondition = inl refl
status_names print aborted = inl refl
status_names print out_of_range = inl refl
status_names print unimplemented = inl refl
status_names print internal = inl refl
status_names print unavailable = inl refl
status_names print data_loss = inl refl
status_names print unauthenticated = inl refl
status_names print (other n) = inr (n, refl)
