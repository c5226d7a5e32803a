-- ===== src/Project/TypeManager/Primitives.antt =====
-- src/project/types.rs: the types that every project starts with.
use windy_public.Prelude.{String, List, [], ◌∷◌}
use windy_public.Project.Types.{DataType, void, bool, float, double, int, uint, ptr}

abbrev pub primitives : List (String × DataType)
primitives =
    ("void", void)
    ∷ ("bool", bool)
    ∷ ("char", int 8)
    ∷ ("unsigned char", uint 8)
    ∷ ("short", int 16)
    ∷ ("unsigned short", uint 16)
    ∷ ("int", int 32)
    ∷ ("unsigned int", uint 32)
    ∷ ("long", int 32)
    ∷ ("unsigned long", uint 32)
    ∷ ("long long", int 64)
    ∷ ("unsigned long long", uint 64)
    ∷ ("int8", int 8)
    ∷ ("uint8", uint 8)
    ∷ ("int16", int 16)
    ∷ ("uint16", uint 16)
    ∷ ("int32", int 32)
    ∷ ("uint32", uint 32)
    ∷ ("int64", int 64)
    ∷ ("uint64", uint 64)
    ∷ ("float", float)
    ∷ ("double", double)
    ∷ ("size_t", uint 64)
    ∷ ("ssize_t", int 64)
    ∷ ("HRESULT", int 32)
    ∷ ("BOOL", int 32)
    ∷ ("DWORD", uint 32)
    ∷ ("WORD", uint 16)
    ∷ ("BYTE", uint 8)
    ∷ ("QWORD", uint 64)
    ∷ ("UINT", uint 32)
    ∷ ("ULONG", uint 32)
    ∷ ("LONG", int 32)
    ∷ ("SHORT", int 16)
    ∷ ("USHORT", uint 16)
    ∷ ("SIZE_T", uint 64)
    ∷ ("ULONGLONG", uint 64)
    ∷ ("ULONG_PTR", uint 64)
    ∷ ("LONG_PTR", int 64)
    ∷ ("INT_PTR", int 64)
    ∷ ("UINT_PTR", uint 64)
    ∷ ("NTSTATUS", int 32)
    ∷ ("LSTATUS", int 32)
    ∷ ("ACCESS_MASK", uint 32)
    ∷ ("BOOLEAN", uint 8)
    ∷ ("ATOM", uint 16)
    ∷ ("WPARAM", uint 64)
    ∷ ("LPARAM", int 64)
    ∷ ("LRESULT", int 64)
    ∷ ("HANDLE", ptr void)
    ∷ ("HMODULE", ptr void)
    ∷ ("HINSTANCE", ptr void)
    ∷ ("HWND", ptr void)
    ∷ ("HDC", ptr void)
    ∷ ("HMENU", ptr void)
    ∷ ("HICON", ptr void)
    ∷ ("HCURSOR", ptr void)
    ∷ ("HBRUSH", ptr void)
    ∷ ("HKEY", ptr void)
    ∷ ("HLOCAL", ptr void)
    ∷ ("HGLOBAL", ptr void)
    ∷ ("SC_HANDLE", ptr void)
    ∷ ("FARPROC", ptr void)
    ∷ ("LPVOID", ptr void)
    ∷ ("PVOID", ptr void)
    ∷ ("LPCVOID", ptr void)
    ∷ ("LPCSTR", ptr (int 8))
    ∷ ("LPSTR", ptr (int 8))
    ∷ ("PCSTR", ptr (int 8))
    ∷ ("LPWSTR", ptr (uint 16))
    ∷ ("LPCWSTR", ptr (uint 16))
    ∷ ("PCWSTR", ptr (uint 16))
    ∷ ("PWSTR", ptr (uint 16))
    ∷ ("LPDWORD", ptr (uint 32))
    ∷ ("PDWORD", ptr (uint 32))
    ∷ ("PHANDLE", ptr (ptr void))
    ∷ ("PBOOL", ptr (int 32))
    ∷ ("LPBOOL", ptr (int 32))
    ∷ []
