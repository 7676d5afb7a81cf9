-- ===== src/Lib.antt =====
-- A model of the parts of controller-tools that decide what is generated: the RBAC generator, the
-- marker definitions with their registry, the collection and parsing of markers, the webhook
-- generator, the CRD generator with its schemas, markers and flattening, and the options of a run. A
-- generator asks the registry for the definitions of its markers, the collector gives it the values
-- of those markers for each root package, and it turns the values into Kubernetes objects.
--
-- Files, with the Go code that they model:
--   Prelude (and its children): Booleans, lists, Go's maps as association lists, a stable sort,
--     strictly ascending lists, and results that are a value or an error.
--   Text: Go's strings as lists of bytes, and what the code uses of the package strings.
--   Rbac/Rule: the type Rule of pkg/rbac/parser.go, its keys, normalize, addVerbs,
--     removeDupAndSort and ToRule. Rbac/Normalize: the closure NormalizeRules. Rbac/Roles:
--     GenerateRoles. Rbac/Permissions is the specification: which requests a policy rule allows.
--     Keys, Merge, Stage, Bucket and Sound lead to the theorems on NormalizeRules; Split, Scope and
--     Distinct to those on GenerateRoles. Rbac/Output: Generator.Generate.
--   Markers/Argument, Markers/Name, Markers/Definition: ArgumentFromType, makeSliceType,
--     makeMapType, splitMarker, loadFields, MakeDefinition and MakeAnyTypeDefinition of
--     pkg/markers/parse.go. Markers/Registry: pkg/markers/reg.go. Markers/Help:
--     pkg/markers/help.go. Markers/Scanner, Markers/Guess and Markers/Parse: expect, peekNoSpace,
--     guessType, parseString, parseSlice, parseMap, parse and Definition.Parse (Parse/Marker) of
--     pkg/markers/parse.go, with MaybeErrList of pkg/loader/errors.go; their children Laws, Ends,
--     Kinds, Total and Fields lead to the theorems of Parse/Complete. Markers/Collect: the visitor
--     of pkg/markers/collect.go; Associate has associateFileMarkers and associatePkgMarkers (Pass,
--     Found, Godoc and Walk lead to the theorem of Owners), Parse parseMarkersInPackage with
--     PackageMarkers of pkg/markers/zip.go. Markers/Docs: extractDoc of pkg/markers/zip.go
--     (Reference has the same in three passes), with RegisterAll of pkg/markers/regutil.go in
--     Markers/Registry.
--   Webhook/Config: Config and the methods that read one part of it, of pkg/webhook/parser.go.
--     Webhook/Convert: ToMutatingWebhook, ToValidatingWebhook and applyPatch. Webhook/Generate:
--     Generator.Generate.
--   Genall/Options: protoFromOptions and splitOutputRuleOption of pkg/genall/options.go.
--   Crd/Schema: JSONSchemaProps; its child Meaning is the specification: which values a schema
--     accepts, and Constraints what fits it without modifiers. Crd/Flatten: flattenAllOfInto,
--     allOfVisitor.Visit and preserveFields of pkg/crd/flatten.go; Refs has RefParts and, of
--     pkg/crd/schema.go, TypeRefLink; Scalars, Hoist, Drops, Parts, Exact, Fields and Modifiers
--     lead to the theorems of Accepts, that a flattening keeps what schemas accept, and Conflicts
--     is about types. Crd/Flattener: the Flattener and flattenVisitor of pkg/crd/flatten.go with
--     the walk of pkg/crd/schema_visitor.go; Ends and Cache are about its cache. Crd/Markers: the
--     schema markers of pkg/crd/markers/validation.go and topology.go; Apply, Topology and Enum
--     have their methods, OneOf the rules of the one-of markers, Cel the part of CEL that these use
--     and Rules what they say there, Priority the order of the markers and applyMarkers of
--     pkg/crd/schema.go, Keeps and Order the theorem on this order. Crd/Spec: the markers of
--     pkg/crd/markers/crd.go (Apply) and NeedCRDFor of pkg/crd/spec.go (Need). Crd/Describe:
--     pkg/crd/desc_visitor.go with the walk of pkg/crd/schema_visitor.go. Crd/Types: typeToSchema
--     of pkg/crd/schema.go and what it calls; Crd/Struct: structToSchema, with its checks of the
--     one-of markers; Crd/Packages: findPackageRecursive, with NonVendorPath of
--     pkg/loader/paths.go. Crd/Generate: Generator.Generate of pkg/crd/gen.go with FindMetav1,
--     FindKubeKinds and what it does to a CRD.
--   Tests, RoleTests: runs on small inputs.
--
-- State: a Go map is an association list, and a loop over a map goes through its entries in an order
-- that is a parameter, so that a theorem holds for every order. A registry holds the addresses of
-- definitions, over a store. Every loop is a recursion on a list or a tree, but for the search of
-- Crd/Packages: its fuel is one more than the number of the imports of all packages, which is enough
-- since the imports of each package are queued once. The loops over a scanner have one round of fuel
-- more than the bytes that are left, since each round reads something; so has the nesting of
-- arguments of any type, since one stands within another only in the braces of a map. The fuel of a
-- Flattener is greater than the number of the types, since each type is put into the cache before
-- its schema is walked. An integer of 32 or 64 bits is given by its bits.
--
-- Parameters, for code outside the repository: how an API server matches a rule's entries
-- (Authorizer), the constants of admissionregistration/v1 (Admission), JSON and the strategic merge
-- patch (Patching), what the constraints of a schema say of a value (Meaning), the packages that
-- the schema markers call (Outside), pluralization (Words), the search for runes of a class
-- (LastIndex), the order of a set's elements, sorts that need not be stable, unicode, and the reading
-- of files, the scanner of text/scanner with the conversions of strconv (Scanning). The parser of an
-- option's marker is a parameter too, as are an output type's own ParseMarker, the text that go/ast
-- makes of a comment group, and strings.TrimSpace.
--
-- A syntax tree is given by what the visitor of comments looks at. What the CRD parser has for a
-- kind, and the conversion of a CRD to a version, are parameters of Crd/Generate (Tools).
--
-- Not modelled: EachType and the collector's cache, the questions that the CRD parser asks go/types,
-- and its caches, the deepcopy and apply-configuration generators, the rest of the loader, the
-- runtime that reads and writes files, and the commands. In the webhook generator, reading the
-- header and writing the files are left out; locks are left out everywhere.
pub mod Prelude
pub mod Text
pub mod Rbac
pub mod Markers
pub mod Webhook
pub mod Genall
pub mod Crd
